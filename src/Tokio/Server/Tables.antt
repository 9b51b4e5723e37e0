-- ===== src/Tokio/Server/Tables.antt =====
-- The map of active requests and the list of tasks of the asynchronous worker: lookups, removals
-- and the choice of one task.
use outboard.Prelude.{
  ℕ, zero, suc, ◌≡◌, ◌≢◌, refl, List, [], ◌∷◌, ◌++◌, Option, none, some, All, nat_eq, Option-cases,
  and_then, subst, inl, inr, arith,
}
use outboard.Protocol.{RequestId}
use outboard.Tokio.{RequestMap, entry_of, without}
use outboard.Tokio.Server.{pick}

pub entry_of-without_same : (id : RequestId) (p : RequestMap) → entry_of id (without id p) ≡ none
entry_of-without_same id [] = refl
entry_of-without_same id ((k, t) ∷ p) = ground (arith, entry_of-without_same id p)

pub entry_of-without_other :
    (i id : RequestId) (p : RequestMap) → i ≢ id → entry_of i (without id p) ≡ entry_of i p
entry_of-without_other i id [] ne = refl
entry_of-without_other i id ((k, t) ∷ p) ne = ground (arith, entry_of-without_other i id p ne)

module _ {A : Type 0} where
  pub pick-split :
      (n : ℕ) (xs before : List A) (x : A) (after : List A)
      → pick n xs ≡ some (before, x, after)
      → xs ≡ before ++ x ∷ after
  pick-split n [] before x after e = cc
  pick-split zero (y ∷ xs) before x after e = cc
  pick-split (suc n) (y ∷ xs) before x after e = elim (Option-cases (pick n xs)) [
    | inl none_left ↦ ground arith
    | inr ((b, z, a), found) ↦ let rest = pick-split n xs b z a found in ground (arith, rest)
  ]

  module _ (P : A → Type 0) where
    pub All-split :
        (before : List A) (x : A) (after : List A)
        → All P (before ++ x ∷ after)
        → P x × All P (before ++ after)
    All-split [] x after h = h
    All-split (y ∷ before) x after (p, h) =
        let (here, rest) = All-split before x after h in (here, (p, rest))

    pub All-put :
        (before : List A) (x : A) (after : List A)
        → P x
        → All P (before ++ after)
        → All P (before ++ x ∷ after)
    All-put [] x after p h = (p, h)
    All-put (y ∷ before) x after p (q, h) = (q, All-put before x after p h)

-- What holds of the value of an option, if there is one.
module _ {A : Type 0} (P : A → Type 0) where
  abbrev pub Whenever : Option A → Type 0
  Whenever none = Unit
  Whenever (some a) = P a

  pub whenever : {o : Option A} {a : A} → Whenever o → o ≡ some a → P a
  whenever h e = subst Whenever e h

  pub Whenever-and_then :
      {B : Type 0} (o : Option B) (f : B → Option A)
      → ((b : B) → o ≡ some b → Whenever (f b))
      → Whenever (and_then o f)
  Whenever-and_then none f h = tt
  Whenever-and_then (some b) f h = h b refl
