-- ===== src/Bot/Forks.antt =====
-- Where `detectReorg` of backend/src/bot/index.ts finds the fork.
use ckb_dex.Prelude.{
  ℕ, Option, List, ◌∷◌, String, none, Bool, some, ◌≡◌, Bool-cases, [], inl, true, ◌++◌, inr, All,
  false, ap, refl,
}
use ckb_dex.Bot.Checkpoints.{Checkpoint, Fork, find_fork}
use ckb_dex.Order.{same_text}

-- Whether the chain still has the block of a checkpoint.
abbrev pub is_canonical : (ℕ → Option String) → Checkpoint → Bool
is_canonical canonical c = same_text (canonical c.number) (some c.hash)

-- The last checkpoint of a list, or the given one.
abbrev pub last_or : Option Checkpoint → List Checkpoint → Option Checkpoint
last_or before [] = before
last_or before (c ∷ cs) = last_or (some c) cs

-- The number of the first checkpoint.
abbrev pub first_number : List Checkpoint → Option ℕ
first_number [] = none
first_number (c ∷ cs) = some c.number

abbrev pub StartsCanonical : (ℕ → Option String) → List Checkpoint → Type 0
StartsCanonical canonical [] = Unit
StartsCanonical canonical (c ∷ cs) = is_canonical canonical c ≡ true

-- Checkpoints, the newest first, are cut where the chain still has a block: the newer ones are
-- all reverted, and the last of them is the evidence.
pub record IsCut (canonical : ℕ → Option String) (before : Option Checkpoint) (cs : List Checkpoint)
    (fork : Fork) : Type 0 where
  pub newer : List Checkpoint
  pub older : List Checkpoint
  pub cut : cs ≡ newer ++ older
  pub reverted : All (λ c. is_canonical canonical c ≡ false) newer
  pub common : StartsCanonical canonical older
  pub ancestor_eq : fork.ancestor ≡ first_number older
  pub evidence_eq : fork.evidence ≡ last_or before newer

-- The loop finds the fork: the checkpoints that it passes are no longer on the chain, the last of
-- them is the evidence, and the first one that is still on the chain, if any, is the ancestor.
pub find_fork-IsCut :
    (canonical : ℕ → Option String) (before : Option Checkpoint) (cs : List Checkpoint)
    → IsCut canonical before cs (find_fork canonical before cs)
unfolding find_fork
find_fork-IsCut canonical before [] = record {
  newer = [];
  older = [];
  cut = refl;
  reverted = tt;
  common = tt;
  ancestor_eq = refl;
  evidence_eq = refl;
}
find_fork-IsCut canonical before (c ∷ cs) = elim (Bool-cases (is_canonical canonical c)) [
  | inl still ↦ record {
    newer = [];
    older = c ∷ cs;
    cut = refl;
    reverted = tt;
    common = still;
    ancestor_eq = rw still refl;
    evidence_eq = rw still refl;
  }
  | inr gone ↦
      let rest = find_fork-IsCut canonical (some c) cs in
      record {
        newer = c ∷ rest.newer;
        older = rest.older;
        cut = ap (λ l. c ∷ l) rest.cut;
        reverted = (gone, rest.reverted);
        common = rest.common;
        ancestor_eq = rw gone rest.ancestor_eq;
        evidence_eq = rw gone rest.evidence_eq;
      }
]
