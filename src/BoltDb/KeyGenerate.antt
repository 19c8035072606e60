-- ===== src/BoltDb/KeyGenerate.antt =====
-- boltdb/key_generate.go: the keys of the replica queue. The bucket is in the order of the bytes of their
-- texts, not of the numbers.
pub mod Increases
pub mod Digits
use rebost.Prelude.{
  ℕ, zero, suc, ◌+◌, ◌/◌, ◌%◌, String, ◌<>◌, not, ℤ, pos, negsuc, ltb_ℤ, int_add, ltb, eqb,
  if◌then◌else◌,
}

-- One decimal digit, and those of a number that is not negative; `fuel` is above their count.
abbrev digit : ℕ → String
digit d =
    if eqb d 0
    then "0"
    else if eqb d 1
    then "1"
    else if eqb d 2
    then "2"
    else if eqb d 3
    then "3"
    else if eqb d 4
    then "4"
    else if eqb d 5
    then "5"
    else if eqb d 6
    then "6"
    else if eqb d 7
    then "7"
    else if eqb d 8
    then "8"
    else "9"

decimal_loop : ℕ → ℕ → String
decimal_loop zero n = ""
decimal_loop (suc fuel) n =
    let rest = decimal_loop fuel (n / 10) in if ltb n 10 then digit n else rest <> digit (n % 10)

unfoldable pub digits : ℕ → String
unfolding decimal_loop
digits n = decimal_loop 20 n

-- `%d` of a negative number has its sign in front.
unfoldable pub decimal : ℤ → String
unfolding digits
decimal (pos n) = digits n
decimal (negsuc n) = "-" <> digits (suc n)

-- `keyGenerator.new`: `now` is `time.Now().UnixNano()`, and the result is the new `lastKey`. Both are of
-- 64 bits, so that the last key wraps around.
unfoldable pub next_key : ℤ → ℤ → ℤ
next_key last_key now = if not (ltb_ℤ last_key now) then int_add last_key (pos 1) else now
