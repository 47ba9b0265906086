-- ===== src/Naming/Examples.antt =====
-- Runs of internal/naming at concrete inputs.
use sgt.Base.{refl, ◌≡◌}
use sgt.Naming.{slug_words, slug_text, word}

slug_text_run : slug_text (slug_words 1) ≡ "ash-badger-busan"
unfolding slug_text slug_words word
slug_text_run = refl
