-- ===== src/Vocabulary/Tests.antt =====
-- A word that only one of the two guards exempts.
use decision_memory.Prelude.{nat_eq, pair_eq, list_eq, ◌≡◌, refl, true, false}
use decision_memory.Text.{codes}
use decision_memory.Vocabulary.{is_function_word, is_exempt}

while_is_exempt : (is_exempt (codes "while") ≡ true) × (is_function_word (codes "while") ≡ false)
unfolding is_exempt is_function_word
while_is_exempt = (refl, refl)
