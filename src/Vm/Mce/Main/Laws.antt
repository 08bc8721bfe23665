-- ===== src/Vm/Mce/Main/Laws.antt =====
-- A revision is named by its text in upper or lower case.
use monad_fork.Prelude.{
  refl, ◌≡◌, ◌∙◌, ◌↔◌, inl, inr, some, [], ◌∷◌, arith, ap, List, Bool-cases, All,
}
use monad_fork.Vm.Mce.Main.{
  frontier, homestead, tangerine_whistle, spurious_dragon, byzantium, constantinople, petersburg,
  istanbul, berlin, london, paris, shanghai, cancun, prague, osaka, latest, uppercase, Revision,
  names, find_name, revision_of,
}
use monad_fork.Text.{codes, same_text}
use monad_fork.Node.Block.{Bytes}
use monad_fork.Text.Laws.{same_text-eq}

abbrev pub name_of : Revision → Bytes
name_of frontier = codes "FRONTIER"
name_of homestead = codes "HOMESTEAD"
name_of tangerine_whistle = codes "TANGERINE_WHISTLE"
name_of spurious_dragon = codes "SPURIOUS_DRAGON"
name_of byzantium = codes "BYZANTIUM"
name_of constantinople = codes "CONSTANTINOPLE"
name_of petersburg = codes "PETERSBURG"
name_of istanbul = codes "ISTANBUL"
name_of berlin = codes "BERLIN"
name_of london = codes "LONDON"
name_of paris = codes "PARIS"
name_of shanghai = codes "SHANGHAI"
name_of cancun = codes "CANCUN"
name_of prague = codes "PRAGUE"
name_of osaka = codes "OSAKA"
name_of latest = codes "LATEST"

-- The entries of the table are names of their revisions.
abbrev Named : List (Bytes × Revision) → Type 0
Named table = All (λ p. p.0 ≡ name_of p.1) table

find_name-name_of :
    (table : List (Bytes × Revision)) (s : Bytes) (rev : Revision)
    → Named table
    → find_name table s ≡ some rev
    → s ≡ name_of rev
unfolding find_name
find_name-name_of [] s rev n e = cc
find_name-name_of ((name, r) ∷ rest) s rev (here, more) e = elim (Bool-cases (same_text s name)) [
  | inl p ↦ ground (arith, same_text-eq s name p, here)
  | inr p ↦ find_name-name_of rest s rev more (ground arith)
]

names-Named : Named names
names-Named = (
  refl,
  (
    refl,
    (
      refl,
      (
        refl,
        (
          refl,
          (
            refl,
            (refl, (refl, (refl, (refl, (refl, (refl, (refl, (refl, (refl, (refl, tt)))))))))),
          ),
        ),
      ),
    ),
  ),
)

found : (rev : Revision) → find_name names (name_of rev) ≡ some rev
unfolding find_name
found frontier = refl
found homestead = refl
found tangerine_whistle = refl
found spurious_dragon = refl
found byzantium = refl
found constantinople = refl
found petersburg = refl
found istanbul = refl
found berlin = refl
found london = refl
found paris = refl
found shanghai = refl
found cancun = refl
found prague = refl
found osaka = refl
found latest = refl

-- A revision is chosen exactly if the argument, in upper case, is its name; any other argument is not
-- supported.
pub revision_of_iff :
    (s : Bytes) (rev : Revision) → (revision_of s ≡ some rev) ↔ (uppercase s ≡ name_of rev)
unfolding revision_of
revision_of_iff s rev = (
  λ e. find_name-name_of names (uppercase s) rev names-Named e,
  λ e. ap (find_name names) e ∙ found rev,
)
