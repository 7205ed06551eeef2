-- ===== src/Tests/Turns.antt =====
-- src/store.rs: two calls of `put_file` that take turns.
use outpack_server.Io.FilePath.{FilePath}
use outpack_server.Io.Fs.{Fs, entry_at, exists, insert, node}
use outpack_server.Prelude.{
  Option, Text, [], ap, arith, codes, if◌then◌else◌, list_eq, nat_eq, option_eq, some, sym, ◌++◌,
  ◌==◌, ◌∙◌, ◌∷◌, ◌≢◌,
}
use outpack_server.Store.Intact.{IsIntact}
use outpack_server.Store.Put.{buffered, make_temp_dir}
use outpack_server.Store.Steps.{
  Call, HasOwnDir, TakesTurns, advance, advanced, called, making_temp_dir, no_calls,
}
use outpack_server.Store.Turns.{TakesTurns-IsIntact}
use outpack_server.Tests.Stores.{count, disk, disk-IsIntact, four, four_hash, root}

-- Another name where the first is taken.
abbrev new_name : Fs → FilePath → Text
new_name fs p = if exists fs (p ++ (codes ".tmpX" ∷ [])) then codes ".tmpY" else codes ".tmpX"

named : (fs : Fs) → new_name fs root ≢ codes ".outpack"
named fs e = ground (arith, e)

abbrev first_call : Call
first_call = record { upload = buffered four; hash = four_hash; stage = making_temp_dir }

abbrev next_of : Call → Fs → Call × Fs
next_of c fs = advance count new_name root c fs

-- Both make their directories before either stores its data.
abbrev after_one : Call × Fs
after_one = next_of first_call disk

abbrev after_two : Call × Fs
after_two = next_of first_call after_one.1

abbrev dir_of_one : Option FilePath
dir_of_one = some (root ++ (codes ".tmpX" ∷ []))

own_dirs : HasOwnDir after_two.0.stage (after_one.0 ∷ [])
unfolding advance node entry_at exists list_eq nat_eq insert make_temp_dir option_eq
own_dirs = ((λ d e f. let same = ap (λ o. o == dir_of_one) (e ∙ sym f) in cc same), tt)

two_turns : TakesTurns count new_name root disk (after_two.0 ∷ after_one.0 ∷ []) after_two.1
two_turns =
    advanced [] (after_one.0 ∷ []) first_call
      (called (buffered four) four_hash
        (advanced [] [] first_call (called (buffered four) four_hash no_calls) tt))
      own_dirs

TakesTurns-IsIntact_example : IsIntact count root after_two.1
TakesTurns-IsIntact_example =
    TakesTurns-IsIntact count new_name root disk after_two.1 (after_two.0 ∷ after_one.0 ∷ []) named
      two_turns disk-IsIntact
