-- ===== src/BoltDb/KeyGenerate/Increases.antt =====
-- The keys that are handed out ascend, whatever the clock shows.
use rebost.Prelude.{
  ℕ, suc, ◌+◌, ◌<◌, ℤ, pos, ◌+ℤ◌, ◌≤ℤ◌, ◌<ℤ◌, ltb_ℤ, int_add, InRange, wrap_fits, +ℤ_parts,
  half_range, Bool-cases, inl, inr, List, [], ◌∷◌, length, arith,
}
use rebost.BoltDb.KeyGenerate.{next_key}

-- The keys that calls of `new` return, one for each reading of the clock.
abbrev pub keys_of : ℤ → List ℤ → List ℤ
keys_of last [] = []
keys_of last (now ∷ nows) = next_key last now ∷ keys_of (next_key last now) nows

-- Each entry is above the one before it, the first one above `low`.
abbrev pub Ascends : ℤ → List ℤ → Type 0
Ascends low [] = Unit {0}
Ascends low (k ∷ ks) = (low <ℤ k) × Ascends k ks

-- No key is below the reading that it was made from.
abbrev pub AreLate : List ℤ → List ℤ → Type 0
AreLate (k ∷ ks) (now ∷ nows) = (now ≤ℤ k) × AreLate ks nows
AreLate _ _ = Unit {0}

abbrev pub AllUpTo : ℕ → List ℤ → Type 0
AllUpTo top [] = Unit {0}
AllUpTo top (now ∷ nows) = InRange now × (now ≤ℤ pos top) × AllUpTo top nows

-- One call, where there is room above.
record IsNext (top : ℕ) (last now k : ℤ) : Type 0 where
  pub above : last <ℤ k
  pub late : now ≤ℤ k
  pub range : InRange k
  pub up_to : k ≤ℤ pos (suc top)

next_key-IsNext :
    (top : ℕ) (last now : ℤ)
    → InRange last
    → InRange now
    → last ≤ℤ pos top
    → now ≤ℤ pos top
    → suc top < half_range
    → IsNext top last now (next_key last now)
unfolding next_key int_add
next_key-IsNext top last now rl rn hl hn room = elim (Bool-cases (ltb_ℤ last now)) [
  | inl e ↦
      rw e (record { above = ground arith; late = ground arith; range = rn; up_to = ground arith })
  | inr e ↦
      let parts = +ℤ_parts last (pos 1) in
      let range : InRange (last +ℤ pos 1) = unfold ◌+ℤ◌ in ground arith in
      rw (e, wrap_fits (last +ℤ pos 1) range)
        (record { above = ground arith; late = ground arith; range = range; up_to = ground arith })
]

weaken-AllUpTo : (top : ℕ) (nows : List ℤ) → AllUpTo top nows → AllUpTo (suc top) nows
weaken-AllUpTo top [] h = tt
weaken-AllUpTo top (now ∷ nows) (r, u, h) = (r, ground arith, weaken-AllUpTo top nows h)

-- Whatever the readings of the clock, also where it stands still or goes back, each key that is
-- handed out is, as a number, above all keys before it, and not below the reading that it was made
-- from. The last key and the readings are 64-bit integers that are at most `top`, and there is room
-- for as many more numbers above it as there are readings.
pub keys-Ascend :
    (top : ℕ) (last : ℤ) (nows : List ℤ)
    → InRange last
    → last ≤ℤ pos top
    → AllUpTo top nows
    → top + length nows < half_range
    → Ascends last (keys_of last nows) × AreLate (keys_of last nows) nows
keys-Ascend top last [] rl hl h room = (tt, tt)
keys-Ascend top last (now ∷ nows) rl hl (rn, hn, h) room =
    let k = next_key-IsNext top last now rl rn hl hn (ground arith) in
    let rest =
      keys-Ascend (suc top) (next_key last now) nows k.range k.up_to (weaken-AllUpTo top nows h)
        (ground arith) in
    ((k.above, rest.0), (k.late, rest.1))
