-- ===== src/State/Accounting.antt =====
-- What `Use` does to the space of a volume.
use rebost.Prelude.{
  ◌≡◌, ◌∙◌, List, [], ◌∷◌, if◌then◌else◌, refl, true, false, inl, inr, Bool-cases, ℤ, pos,
  minus_one, ltb_ℤ, eqb_ℤ, int_add, int_neg, ◌+ℤ◌, ◌-ℤ◌, ◌≤ℤ◌, InRange, wrap_fits, +ℤ_parts,
  -ℤ_parts, eq_of_parts, arith,
}
use rebost.State.{State, total_size, used_size, can_store, use_size}

abbrev pub taken : State → ℤ → State
taken s b = record s {
  system_used_size = int_add s.system_used_size b;
  volume_used_size = int_add s.volume_used_size b;
}

used_size-taken : (s : State) (b : ℤ) → used_size (taken s b) ≡ int_add (used_size s) b
unfolding used_size
used_size-taken s b = elim (Bool-cases (eqb_ℤ s.volume_total_size minus_one)) [
  | inl e ↦ rw e refl
  | inr e ↦ rw e refl
]

total_size-taken : (s : State) (b : ℤ) → total_size (taken s b) ≡ total_size s
unfolding total_size
total_size-taken s b = refl

-- Calls of `Use`, one after the other.
abbrev pub use_all : State → List ℤ → State
use_all s [] = s
use_all s (b ∷ bs) = use_all (use_size s b).0 bs

-- The space that is used of a total, kept as one number: a size that would go above is refused.
abbrev pub spend : ℤ → ℤ → List ℤ → ℤ
spend total used [] = used
spend total used (b ∷ bs) =
    spend total (if ltb_ℤ total (int_add used b) then used else int_add used b) bs

-- The total is what it was, the used space is that of the sizes that fitted, and within the total.
pub record IsSpent (s : State) (bs : List ℤ) (s' : State) : Type 0 where
  pub total : total_size s' ≡ total_size s
  pub used : used_size s' ≡ spend (total_size s) (used_size s) bs
  pub room : used_size s' ≤ℤ total_size s'

use_size-total_size : (s : State) (b : ℤ) → total_size (use_size s b).0 ≡ total_size s
unfolding use_size
use_size-total_size s b = elim (Bool-cases (can_store s b)) [
  | inl e ↦ rw e (total_size-taken s b)
  | inr e ↦ rw e refl
]

use_size-used_size :
    (s : State) (b : ℤ)
    → used_size (use_size s b).0 ≡ (
        if ltb_ℤ (total_size s) (int_add (used_size s) b)
        then used_size s
        else int_add (used_size s) b)
unfolding use_size can_store
use_size-used_size s b = elim (Bool-cases (ltb_ℤ (total_size s) (int_add (used_size s) b))) [
  | inl e ↦ rw e refl
  | inr e ↦ rw e (used_size-taken s b)
]

use_size-room :
    (s : State) (b : ℤ)
    → used_size s ≤ℤ total_size s
    → used_size (use_size s b).0 ≤ℤ total_size (use_size s b).0
use_size-room s b h =
    rw (use_size-used_size s b, use_size-total_size s b)
      (elim (Bool-cases (ltb_ℤ (total_size s) (int_add (used_size s) b))) [
        | inl e ↦ rw e h
        | inr e ↦ let fits : int_add (used_size s) b ≤ℤ total_size s = ground arith in rw e fits
      ])

-- From a state that is not over-full, any calls of `Use` leave the total as it was, and as used what
-- the same sizes make of one number that refuses each size that would bring it above the total; the
-- used space is never above the total. The size and the space are those of the volume or, if its
-- total is -1, of the system, and sums wrap around.
pub use_all-IsSpent :
    (s : State) (bs : List ℤ) → used_size s ≤ℤ total_size s → IsSpent s bs (use_all s bs)
use_all-IsSpent s [] h = record { total = refl; used = refl; room = h }
use_all-IsSpent s (b ∷ bs) h =
    let r = use_all-IsSpent (use_size s b).0 bs (use_size-room s b h) in
    record {
      total = r.total ∙ use_size-total_size s b;
      used = r.used ∙ rw (use_size-total_size s b, use_size-used_size s b) refl;
      room = r.room;
    }

int_add_neg :
    (a b : ℤ)
    → InRange a
    → InRange b
    → InRange (a +ℤ b)
    → InRange (pos 0 -ℤ b)
    → int_add (int_add a b) (int_neg b) ≡ a
unfolding int_add int_neg
int_add_neg a b ra rb rs rn =
    let back : a +ℤ b +ℤ (pos 0 -ℤ b) ≡ a =
      eq_of_parts _ _
        (omega (arith, +ℤ_parts a b, +ℤ_parts (a +ℤ b) (pos 0 -ℤ b), -ℤ_parts (pos 0) b)) in
    rw (wrap_fits (a +ℤ b) rs, wrap_fits (pos 0 -ℤ b) rn, back) (wrap_fits a ra)

-- The counters of `s` and their sums with `b` are 64-bit integers, and so is -`b`.
pub record IsBounded (s : State) (b : ℤ) : Type 0 where
  pub system : InRange s.system_used_size
  pub volume : InRange s.volume_used_size
  pub system_sum : InRange (s.system_used_size +ℤ b)
  pub volume_sum : InRange (s.volume_used_size +ℤ b)
  pub size : InRange b
  pub negated : InRange (pos 0 -ℤ b)

given_back : (s : State) (b : ℤ) → IsBounded s b → taken (taken s b) (int_neg b) ≡ s
given_back s b h =
    rw
      (
        int_add_neg s.system_used_size b h.system h.size h.system_sum h.negated,
        int_add_neg s.volume_used_size b h.volume h.size h.volume_sum h.negated,
      )
      refl

use_fitting :
    (s : State) (b : ℤ)
    → ltb_ℤ (total_size s) (int_add (used_size s) b) ≡ false
    → use_size s b ≡ (taken s b, true)
unfolding use_size can_store
use_fitting s b e = rw e refl

room_of :
    (s : State) (b : ℤ)
    → (use_size s b).1 ≡ true
    → ltb_ℤ (total_size s) (int_add (used_size s) b) ≡ false
unfolding use_size can_store
room_of s b h = ground arith

-- A size that was taken, with no overflow, from a state that is not over-full is given back by the
-- call with its negation: the state is the one before.
pub use_size-use_size :
    (s : State) (b : ℤ)
    → IsBounded s b
    → used_size s ≤ℤ total_size s
    → (use_size s b).1 ≡ true
    → use_size (use_size s b).0 (int_neg b) ≡ (s, true)
use_size-use_size s b h full fits =
    let room : ltb_ℤ (total_size s) (int_add (used_size (taken s b)) (int_neg b)) ≡ false =
      rw (← used_size-taken (taken s b) (int_neg b), given_back s b h) (ground arith) in
    rw
      (
        use_fitting s b (room_of s b fits),
        use_fitting (taken s b) (int_neg b) (rw (total_size-taken s b) room),
      )
      (rw (given_back s b h) refl)
