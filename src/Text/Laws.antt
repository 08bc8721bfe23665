-- ===== src/Text/Laws.antt =====
-- Texts that are compared.
use monad_fork.Prelude.{◌≡◌, refl, true, [], ◌∷◌, arith}
use monad_fork.Text.{same_text}
use monad_fork.Node.Block.{Bytes}

pub same_text-eq : (s t : Bytes) → same_text s t ≡ true → s ≡ t
unfolding same_text
same_text-eq [] [] e = refl
same_text-eq [] (b ∷ t) e = cc
same_text-eq (a ∷ s) [] e = cc
same_text-eq (a ∷ s) (b ∷ t) e = ground (arith, same_text-eq s t)
