-- ===== src/Klib/Sprintf.antt =====
-- sprintf of stdio.c, which writes into the memory that it reads its format from.
use triathlon.Prelude.{
  ℕ, zero, suc, ◌+◌, ◌-◌, not, ◌&&◌, Option, none, some, true, false, List, [], ◌∷◌, ◌==◌, ltb,
  if◌then◌else◌,
}
use triathlon.Prelude.Words.{u8, add_int, sub_int, is_neg_int}
use triathlon.Prelude.Store.{Store, update}
use triathlon.Klib.Stdio.{mod_int_10, div_int_10}

-- The output pointer `p` and the memory.
pub record Output : Type 0 where
  pub p : ℕ
  pub memory : Store

-- `*p++ = c`.
unfoldable pub store : ℕ → Output → Output
store c o = record { p = o.p + 1; memory = update o.memory o.p (u8 c) }

-- `while (*str) *p++ = *str++`.
unfoldable pub store_string : ℕ → ℕ → Output → Option Output
store_string zero str o = none
store_string (suc fuel) str o =
    let rest = store_string fuel (str + 1) (store (o.memory str) o) in
    if o.memory str == 0 then some o else rest

-- The loop that fills `buf`, of 128 characters.
unfoldable pub number_buffer : ℕ → ℕ → List ℕ
number_buffer zero num = []
number_buffer (suc room) num =
    let next = div_int_10 num in
    let rest = number_buffer room next in
    u8 (add_int 48 (mod_int_10 num)) ∷ (if ltb 0 next && not (is_neg_int next) then rest else [])

-- `while (ptr != buf) *p++ = *--ptr`.
unfoldable pub store_back : List ℕ → Output → Output
store_back [] o = o
store_back (c ∷ cs) o = store c (store_back cs o)

unfoldable pub store_number : ℕ → Output → Output
store_number num o =
    if is_neg_int num
    then store_back (number_buffer 128 (sub_int 0 num)) (store 45 o)
    else store_back (number_buffer 128 num) o

-- The cases that take an argument.
unfoldable pub store_argument : ℕ → ℕ → List ℕ → Output → Option (Output × List ℕ)
store_argument fuel c [] o = none
store_argument fuel c (a ∷ args) o =
    if c == 115
    then elim (store_string fuel a o) [ none ↦ none | some o' ↦ some (o', args) ]
    else some (store_number a o, args)

-- An unknown conversion first writes the `%` and then the character over it.
unfoldable pub store_conversion : ℕ → ℕ → List ℕ → Output → Option (Output × List ℕ)
store_conversion fuel fmt args o =
    let c = o.memory fmt in
    let o' = store 37 o in
    if c == 115
    then store_argument fuel c args o
    else if c == 100
    then store_argument fuel c args o
    else some (record o' { memory = update o'.memory (o'.p - 1) (o'.memory fmt) }, args)

-- One round of the loop: the new `fmt`, the output and the arguments left.
unfoldable pub sprintf_round : ℕ → ℕ → List ℕ → Output → Option (ℕ × (Output × List ℕ))
sprintf_round fuel fmt args o =
    if o.memory fmt == 37
    then elim (store_conversion fuel (fmt + 1) args o) [ none ↦ none | some r ↦ some (fmt + 2, r) ]
    else some (fmt + 1, (store (o.memory fmt) o, args))

unfoldable pub sprintf_from : ℕ → ℕ → List ℕ → Output → Option Output
sprintf_from zero fmt args o = none
sprintf_from (suc fuel) fmt args o = elim (o.memory fmt == 0) [
  | true ↦ some o
  | false ↦ elim (sprintf_round fuel fmt args o) [
    | none ↦ none
    | some (fmt', (o', args')) ↦ sprintf_from fuel fmt' args' o'
  ]
]

-- The count and the memory.
unfoldable pub sprintf : ℕ → ℕ → ℕ → List ℕ → Store → Option (ℕ × Store)
sprintf fuel out fmt args m = elim (sprintf_from fuel fmt args (record { p = out; memory = m })) [
  | none ↦ none
  | some o ↦ some (o.p - out, update o.memory o.p 0)
]
