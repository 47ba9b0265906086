-- ===== src/Naming.antt =====
-- internal/naming: speakable labels for runs, and the names of branches.
--
-- `digest` is the number that the first eight bytes of SHA-256 spell, big-endian, and `numbered`
-- is `fmt.Sprintf("%s#%d", ...)`.
mod Examples
use sgt.Base.{
  ℕ, zero, suc, ◌+◌, ◌*◌, ◌/◌, ◌%◌, ◌<◌, ◌≤◌, String, Bool, true, false, ◌&&◌, Option, none, some,
  List, [], ◌∷◌, str_eq, ltb, leb, ◌==◌, if◌then◌else◌, any, length, str_append, refl, ◌≡◌, arith,
  eq_iff, ap, ◌∙◌, inl, inr, Bool-cases, eq_true, sym,
}

abbrev pub colours : List String
colours =
    "amber" ∷ "ash" ∷ "bone" ∷ "brass" ∷ "chrome" ∷ "coal" ∷ "cobalt" ∷ "copper" ∷ "crimson"
    ∷ "ember" ∷ "frost" ∷ "gold" ∷ "gunmetal" ∷ "indigo" ∷ "ivory" ∷ "jade" ∷ "lilac" ∷ "magenta"
    ∷ "mint" ∷ "neon" ∷ "ochre" ∷ "onyx" ∷ "plum" ∷ "rust" ∷ "sable" ∷ "scarlet" ∷ "silver"
    ∷ "slate" ∷ "teal" ∷ "umber" ∷ "violet" ∷ "wine" ∷ []

abbrev pub animals : List String
animals =
    "badger" ∷ "crane" ∷ "falcon" ∷ "gecko" ∷ "hare" ∷ "heron" ∷ "ibis" ∷ "jackal" ∷ "kestrel"
    ∷ "kite" ∷ "koi" ∷ "lark" ∷ "lynx" ∷ "mantis" ∷ "marten" ∷ "mole" ∷ "moth" ∷ "newt" ∷ "otter"
    ∷ "owl" ∷ "panther" ∷ "quail" ∷ "raven" ∷ "rook" ∷ "shrike" ∷ "stoat" ∷ "tapir" ∷ "viper"
    ∷ "vole" ∷ "wolf" ∷ "wren" ∷ "yak" ∷ []

abbrev pub places : List String
places =
    "busan" ∷ "cairo" ∷ "chiba" ∷ "dalian" ∷ "dogtown" ∷ "freeside" ∷ "hanoi" ∷ "harbin" ∷ "heywood"
    ∷ "jakarta" ∷ "kabuki" ∷ "karachi" ∷ "kowloon" ∷ "kyoto" ∷ "lagos" ∷ "lima" ∷ "macau" ∷ "manila"
    ∷ "montreal" ∷ "murmansk" ∷ "ninsei" ∷ "odessa" ∷ "osaka" ∷ "penang" ∷ "seoul" ∷ "shibuya"
    ∷ "sprawl" ∷ "straylight" ∷ "taipei" ∷ "tangier" ∷ "tijuana" ∷ "watson" ∷ []

abbrev pub combinations : ℕ
combinations = length colours * length animals * length places

-- `bank[i]`, for an `i` that the remainder bounds.
unfoldable pub word : List String → ℕ → String
word [] i = ""
word (w ∷ ws) zero = w
word (w ∷ ws) (suc i) = word ws i

-- The three words of the label, by the digest.
unfoldable pub slug_words : ℕ → String × String × String
slug_words n =
    let a = word colours (n % length colours) in
    let n1 = n / length colours in
    let b = word animals (n1 % length animals) in
    let n2 = n1 / length animals in (a, b, word places (n2 % length places))

unfoldable pub slug_text : String × String × String → String
slug_text (a, b, c) = str_append a (str_append "-" (str_append b (str_append "-" c)))

unfoldable pub slug : (String → ℕ) → String → String
unfolding slug_words slug_text
slug digest seed = slug_text (slug_words (digest seed))

unfoldable pub slug_attempt : (String → ℕ) → (String → ℕ → String) → String → ℕ → String
slug_attempt digest numbered seed attempt =
    if leb attempt 0 then slug digest seed else slug digest (numbered seed attempt)

unfoldable pub in_bank : List String → String → Bool
in_bank bank w = any (λ b. str_eq b w) bank

-- `Valid`, of what `strings.Split` returns.
unfoldable pub valid_parts : List String → Bool
valid_parts (a ∷ b ∷ c ∷ []) = in_bank colours a && in_bank animals b && in_bank places c
valid_parts _ = false

unfoldable pub valid : (String → List String) → String → Bool
valid split_dash s = valid_parts (split_dash s)

unfoldable pub branch_name : String → String → String
branch_name work_type change_id = str_append work_type (str_append "/" change_id)

unfoldable pub branch_name_for_run : String → String → String → String
branch_name_for_run run_id work_type change_id =
    if str_eq work_type "" then str_append "sgt/" run_id else branch_name work_type change_id

word-bank : (bank : List String) (i : ℕ) → i < length bank → in_bank bank (word bank i) ≡ true
unfolding word in_bank
word-bank [] i h = absurd (omega (arith, h))
word-bank (w ∷ ws) zero h = ground (arith, eq_true w w refl)
word-bank (w ∷ ws) (suc i) h = ground (arith, word-bank ws i (omega (arith, h)))

-- A label is always a colour, an animal and a place, each from its bank.
slug_words-valid : (n : ℕ) → let (a, b, c) = slug_words n in valid_parts (a ∷ b ∷ c ∷ []) ≡ true
unfolding slug_words valid_parts
slug_words-valid n =
    let p = word-bank colours (n % length colours) (omega arith) in
    let q = word-bank animals (n / length colours % length animals) (omega arith) in
    let r = word-bank places (n / length colours / length animals % length places) (omega arith) in
    rw (p, q, r) refl
