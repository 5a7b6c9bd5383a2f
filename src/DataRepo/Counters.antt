-- ===== src/DataRepo/Counters.antt =====
-- What include/datarepo.h promises of one key: its entry as counters, or no entry.
use dague_hsa.Prelude.{ℕ, Option, none, some, ◌==◌, ◌&&◌, ltb, if◌then◌else◌}
use dague_hsa.DataRepo.{Entry, add32, sub32}

pub record Counters : Type 0 where
  pub used : ℕ
  pub limit : ℕ
  pub retained : ℕ

-- A key without an entry has no counters.
abbrev pub State : Type 0
State = Option Counters

abbrev pub counters : Entry → Counters
counters e = record { used = e.usagecnt; limit = e.usagelmt; retained = e.retained }

abbrev pub observe : Option Entry → State
observe none = none
observe (some e) = some (counters e)

-- An entry that is not retained and used up is collected.
unfoldable pub collect : Counters → State
collect c = if c.limit == c.used && c.retained == 0 then none else some c

unfoldable pub retain : State → Counters
retain none = record { used = 0; limit = 0; retained = 1 }
retain (some c) = record c { retained = add32 c.retained 1 }

-- `none` is a failed assertion.
unfoldable pub spend : State → Option State
spend none = none
spend (some c) = some (collect (record c { used = add32 c.used 1 }))

unfoldable pub raise : ℕ → State → Option State
raise n none = none
raise n (some c) =
    if ltb 0 c.retained
    then some (collect (record c { limit = add32 c.limit n; retained = sub32 c.retained 1 }))
    else none
