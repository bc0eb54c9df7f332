-- ===== src/Tests/CacheTests.antt =====
-- A store of two entries in memory; the text "?" is no value.
use ezsql.Base.{
  ◌≤◌, ◌*◌, ◌≡◌, refl, String, Option, none, some, List, [], ◌∷◌, length, ◌==◌, string_eq,
  if◌then◌else◌, arith,
}
use ezsql.Base.Dict
use ezsql.Base.Dict.{Dict}
use ezsql.Cache.{CacheStore, Call, init, get, put, perform_all, clear, close, evict_sqlite}
use ezsql.Cache.Call.{get_call, put_call}
use ezsql.Cache.Reads.{put_then_get}
use ezsql.Cache.Bounds.{memory_bounded}
use ezsql.Cache.Table.{table_size, put_bounds_table}

run : Unit {0}
unfolding get put clear close perform_all evict_sqlite Dict.get Dict.set Dict.remove
run = tt

abbrev parse : String → Option String
parse text = if text == "?" then none else some text

abbrev empty_store : CacheStore
empty_store = init 2 1 (some [])

abbrev one_put : CacheStore
one_put = put empty_store "a" "scan" "1" (some 5) 100

abbrev three_puts : List Call
three_puts =
    put_call "a" "scan" "1" none 100
    ∷ put_call "b" "scan" "2" none 101
    ∷ put_call "c" "scan" "?" none 102
    ∷ get_call "a" none 103
    ∷ get_call "c" none 104
    ∷ []

expires_by_reader : (get parse one_put "a" (some 5) 200).1 ≡ none
unfolding run
expires_by_reader = refl

-- The row outlives its entry in memory.
promoted : length (perform_all parse three_puts empty_store).memory ≡ 1
unfolding run
promoted = refl

put_then_get_example : get parse one_put "a" none 200 ≡ (one_put, some "1")
put_then_get_example =
    put_then_get parse empty_store "a" "scan" "1" (some 5) 100 200 (omega arith) refl

memory_bounded_example : length (perform_all parse three_puts empty_store).memory ≤ 2
memory_bounded_example = memory_bounded parse 2 1 (some []) three_puts

put_bounds_table_example : table_size one_put.db ≤ 1 * 1024 * 1024
put_bounds_table_example = put_bounds_table empty_store "a" "scan" "1" (some 5) 100
