-- ===== src/Http/Mem.antt =====
-- http/mem.go: a key-value store in memory, whose entries expire. The lock of a method is held for
-- the whole of it, except in `NonceCheck`, whose three calls take it one by one.
pub mod Nonce
pub mod Race
use keys.Common.{
  ℕ, zero, suc, ◌+◌, ◌-◌, ◌*◌, ◌≤◌, List, [], ◌∷◌, Option, none, some, Bool, true, false, ◌&&◌, not,
  ◌==◌, leb, Str, str_eq, codes, if◌then◌else◌, Result, ok, err,
}
use keys.Common.Int.{ℤ, pos, negsuc, incr, itoa, max_int}
use keys.Common.Assoc
use keys.Common.Assoc.{Assoc}

-- A time is its nanoseconds since the epoch. `none` is the zero time, of an entry that stays.
pub record Entry : Type 0 where
  pub value : Str
  pub expire : Option ℕ

-- The clock's readings in order, and the number of those taken.
pub record Clock : Type 0 where
  pub reading : ℕ → ℕ
  pub taken : ℕ

pub record Mem : Type 0 where
  pub kv : Assoc Entry
  pub clock : Clock

-- `nil_entry` is the panic on a field of a nil entry.
pub data Error : Type 0 where
  nonce_collision invalid_number nil_entry : Error

unfoldable pub new_mem : Clock → Mem
new_mem clock = record { kv = []; clock = clock }

-- `m.clock.Now()`.
unfoldable pub now : Mem → ℕ × Mem
now m = (
  m.clock.reading m.clock.taken,
  record m { clock = record m.clock { taken = m.clock.taken + 1 } },
)

-- `m.get(k)`; the clock is read where the entry can expire.
unfoldable pub find : Mem → Str → Option Entry × Mem
find m k = elim (Assoc.lookup k m.kv) [
  | none ↦ (none, m)
  | some e ↦ elim e.expire [
    | none ↦ (some e, m)
    | some t ↦ ((if leb t (now m).0 then none else some e), (now m).1)
  ]
]

-- `m.set(k, e)`.
unfoldable pub put : Mem → Str → Entry → Mem
put m k e = record m { kv = Assoc.insert k e m.kv }

-- `m.Get(k)`.
unfoldable pub get : Mem → Str → Str × Mem
get m k = ((elim (find m k).0 [ none ↦ [] | some e ↦ e.value ]), (find m k).1)

-- `m.Expire(k, dt)`.
unfoldable pub expire_after : Mem → Str → ℕ → Result Error Unit × Mem
expire_after m k dt = elim (find (now m).1 k).0 [
  | none ↦ (err nil_entry, (find (now m).1 k).1)
  | some e ↦ (ok tt, put (find (now m).1 k).1 k (record e { expire = some ((now m).0 + dt) }))
]

-- `m.Delete(k)`.
unfoldable pub delete : Mem → Str → Mem
delete m k = record m { kv = Assoc.erase k m.kv }

-- `m.Set(k, v)`.
unfoldable pub set : Mem → Str → Str → Mem
set m k v = put m k (record { value = v; expire = none })

-- The value of decimal digits behind `n`, at least one where `n` is `none`.
unfoldable pub parse_digits : Option ℕ → Str → Option ℕ
parse_digits n [] = n
parse_digits n (c ∷ s) =
    if leb b'0' c && leb c b'9'
    then parse_digits (some ((elim n [ none ↦ 0 | some v ↦ v ]) * 10 + (c - b'0'))) s
    else none

-- `strconv.ParseInt(s, 10, 64)`; `none` is an error.
unfoldable pub parse_int : Str → Option ℤ
parse_int [] = none
parse_int (c ∷ s) =
    if c == b'-'
    then elim (parse_digits none s) [
      | none ↦ none
      | some zero ↦ some (pos 0)
      | some (suc n) ↦ if leb n max_int then some (negsuc n) else none
    ]
    else elim (parse_digits none (if c == b'+' then s else c ∷ s)) [
      | none ↦ none
      | some n ↦ if leb n max_int then some (pos n) else none
    ]

-- `m.Increment(k)`.
unfoldable pub increment : Mem → Str → Result Error ℤ × Mem
increment m k = elim (find m k).0 [
  | none ↦ (err nil_entry, (find m k).1)
  | some e ↦ elim (parse_int e.value) [
    | none ↦ (err invalid_number, (find m k).1)
    | some n ↦ (ok (incr n), put (find m k).1 k (record e { value = itoa (incr n) }))
  ]
]

-- `time.Hour`.
abbrev pub hour : ℕ
hour = 3_600_000_000_000

-- `m.NonceCheck(nonce)`.
unfoldable pub nonce_check : Mem → Str → Result Error Unit × Mem
nonce_check m nonce =
    if not (str_eq (get m nonce).0 [])
    then (err nonce_collision, (get m nonce).1)
    else expire_after (set (get m nonce).1 nonce (codes "1")) nonce hour
