-- ===== src/Graphify.antt =====
-- internal/graphify/exclude.go: the patterns of excluded source files, and the graph without them.
--
-- `match_segment` is path.Match on one segment, with an error taken as no match, which is how its one
-- caller takes it; `split` is strings.Split at "/". JSON decoding and the file are not modelled: an
-- element of the graph is the fields that the pass reads and the raw text that it keeps.
pub mod Filter
mod Examples
use sgt.Base.{
  ℕ, zero, suc, ◌+◌, String, Bool, true, false, ◌&&◌, ◌||◌, not, List, [], ◌∷◌, ◌++◌, str_eq, ltb,
  leb, if◌then◌else◌, any, filterb, length, map, refl, ◌≡◌, arith, inl, inr, Bool-cases, All, ◌↔◌,
  eq_iff, eq_true, ◌∙◌, ap, eq_false, ◌≢◌, ◌⊎◌, sym, ◌≤◌,
}
use mathlib.Core.Path.{subst}

module _ (match_segment : String → String → Bool) where
  -- The two recursive calls of a `**` are on a shorter pattern or on a shorter name.
  unfoldable pub match_segments : List String → List String → Bool
  match_segments [] [] = true
  match_segments [] (_ ∷ _) = false
  match_segments (p ∷ ps) [] =
      let rest = match_segments ps [] in if str_eq p "**" then rest else false
  match_segments (p ∷ ps) (n ∷ ns) =
      let here = match_segments ps (n ∷ ns) in
      let past = match_segments (p ∷ ps) ns in
      let next = match_segments ps ns in
      if str_eq p "**"
      then (if here then true else past)
      else if not (match_segment p n)
      then false
      else next

  unfoldable pub matches_pattern : (String → List String) → String → String → Bool
  matches_pattern split pattern name = match_segments (split pattern) (split name)

  unfoldable pub matches_any : (String → List String) → List String → String → Bool
  matches_any split patterns source_file = any (λ p. matches_pattern split p source_file) patterns

  -- The names that a pattern describes: `**` stands for any number of segments, and any other
  -- segment for one segment that it matches.
  pub data Describes : List String → List String → Type 0 where
    at_end : Describes [] []
    skip_none : (ps ns : List String) → Describes ps ns → Describes ("**" ∷ ps) ns
    skip_one :
        (ps : List String) (n : String) (ns : List String)
        → Describes ("**" ∷ ps) ns
        → Describes ("**" ∷ ps) (n ∷ ns)
    one :
        (p : String) (ps : List String) (n : String) (ns : List String)
        → str_eq p "**" ≡ false
        → match_segment p n ≡ true
        → Describes ps ns
        → Describes (p ∷ ps) (n ∷ ns)

  sound : (ps ns : List String) → match_segments ps ns ≡ true → Describes ps ns
  unfolding match_segments
  sound [] [] h = at_end
  sound [] (n ∷ ns) h = absurd (ground arith)
  sound (p ∷ ps) [] h = elim (Bool-cases (str_eq p "**")) [
    | inl e ↦
        let same = (eq_iff p "**").0 e in
        let rest : match_segments ps [] ≡ true = ground arith in
        subst (λ q. Describes (q ∷ ps) []) (sym same) (skip_none ps [] (sound ps [] rest))
    | inr e ↦ absurd (ground arith)
  ]
  sound (p ∷ ps) (n ∷ ns) h = elim (Bool-cases (str_eq p "**")) [
    | inl e ↦
        let same = (eq_iff p "**").0 e in
        elim (Bool-cases (match_segments ps (n ∷ ns))) [
          | inl k ↦
              subst (λ q. Describes (q ∷ ps) (n ∷ ns)) (sym same)
                (skip_none ps (n ∷ ns) (sound ps (n ∷ ns) k))
          | inr k ↦
              let rest : match_segments (p ∷ ps) ns ≡ true = ground arith in
              let ih = subst (λ q. Describes (q ∷ ps) ns) same (sound (p ∷ ps) ns rest) in
              subst (λ q. Describes (q ∷ ps) (n ∷ ns)) (sym same) (skip_one ps n ns ih)
        ]
    | inr e ↦
        let m : match_segment p n ≡ true = ground arith in
        let rest : match_segments ps ns ≡ true = ground arith in
        one p ps n ns e m (sound ps ns rest)
  ]

  complete : (ps ns : List String) → Describes ps ns → match_segments ps ns ≡ true
  unfolding match_segments
  complete _ _ at_end = refl
  complete _ [] (skip_none ps _ d) = complete ps [] d
  complete _ (n ∷ ns) (skip_none ps _ d) = let ih = complete ps (n ∷ ns) d in ground arith
  complete _ _ (skip_one ps n ns d) = let ih = complete ("**" ∷ ps) ns d in ground arith
  complete _ _ (one p ps n ns e m d) = rw (e, m) (complete ps ns d)

  -- The matcher accepts exactly the names that the pattern describes.
  pub match_segments-Describes :
      (ps ns : List String) → (match_segments ps ns ≡ true) ↔ Describes ps ns
  match_segments-Describes ps ns = (sound ps ns, complete ps ns)
