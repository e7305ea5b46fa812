-- ===== src/Base/Http.antt =====
-- What the program uses of packages net/http, net/url and strconv. A header is a dictionary under
-- lower-case names, and a query one under decoded keys. An integer is the pattern of an int64.
use Prim.Native.Nat.{ℕ, zero, suc, ◌+◌, ◌-◌, ◌*◌, ◌/◌, ◌%◌, ◌≤◌, ◌<◌}
use native.Mathlib.Omega.{arith}
use mathlib.Core.Path.{◌≡◌}
use mathlib.Core.Bool.{◌&&◌}
use mathlib.Core.List.{List, [], ◌∷◌, ◌++◌}
use mathlib.Core.Option.{Option, none, some}
use stowage.Base.Tests.{ltb, leb, ◌==◌, if◌then◌else◌}
use stowage.Base.Text.{Str}
use stowage.Base.Dict.{Dict, lookup, insert}
use stowage.Base.Int64.{modulus, sign_bit}

abbrev pub Header : Type 0
Header = Dict (List Str)

-- http.Header.Get, Set and Add; Get is also url.Values.Get
unfoldable pub header_get : Str → Header → Str
header_get k h = elim (lookup k h) [ some (v ∷ vs) ↦ v | _ ↦ [] ]

abbrev pub header_set : Str → Str → Header → Header
header_set k v h = insert k (v ∷ []) h

unfoldable pub header_add : Str → Str → Header → Header
header_add k v h =
    insert k (elim (lookup k h) as (λ _. List Str) [ none ↦ v ∷ [] | some vs ↦ vs ++ v ∷ [] ]) h

-- strconv.Itoa on the numbers that occur, which have at most twenty digits
unfoldable pub itoa_loop : ℕ → ℕ → Str → Str
itoa_loop zero n acc = acc
itoa_loop (suc fuel) n acc =
    let rest = itoa_loop fuel (n / 10) ((b'0' + n % 10) ∷ acc) in
    if ltb n 10 then (b'0' + n) ∷ acc else rest

abbrev pub itoa : ℕ → Str
itoa n = itoa_loop 20 n []

-- strconv.FormatInt(n, 10)
unfoldable pub format_int : ℕ → Str
format_int n = if ltb n sign_bit then itoa n else b'-' ∷ itoa (modulus - n)

unfoldable pub decimal_digits : ℕ → Str → Option ℕ
decimal_digits n [] = some n
decimal_digits n (c ∷ s) =
    let rest = decimal_digits (n * 10 + (c - b'0')) s in
    if leb b'0' c && leb c b'9' then rest else none

-- one digit at least, and a value up to a bound
unfoldable pub unsigned_decimal : ℕ → Str → Option ℕ
unsigned_decimal bound [] = none
unsigned_decimal bound (c ∷ s) = elim (decimal_digits 0 (c ∷ s)) [
  | none ↦ none
  | some n ↦ if leb n bound then some n else none
]

-- strconv.Atoi and strconv.ParseInt(s, 10, 64)
unfoldable pub parse_int : Str → Option ℕ
parse_int [] = none
parse_int (c ∷ s) =
    let negative : Option ℕ = elim (unsigned_decimal sign_bit s) [
      | none ↦ none
      | some n ↦ some ((modulus - n) % modulus)
    ] in
    if c == b'-'
    then negative
    else if c == b'+'
    then unsigned_decimal (sign_bit - 1) s
    else unsigned_decimal (sign_bit - 1) (c ∷ s)

unsigned_decimal-le : (bound : ℕ) (s : Str) (n : ℕ) → unsigned_decimal bound s ≡ some n → n ≤ bound
unfolding unsigned_decimal
unsigned_decimal-le bound [] n h = cc
unsigned_decimal-le bound (c ∷ s) n h = ground arith

-- What ParseInt gives is the pattern of an int64.
pub parse_int-lt : (s : Str) (n : ℕ) → parse_int s ≡ some n → n < modulus
unfolding parse_int
parse_int-lt [] n h = cc
parse_int-lt (c ∷ s) n h =
    ground
      (arith, unsigned_decimal-le (sign_bit - 1) s n, unsigned_decimal-le (sign_bit - 1) (c ∷ s) n)
