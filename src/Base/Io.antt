-- ===== src/Base/Io.antt =====
-- Readers and writers of Go's `io`, as the program uses them. A reader delivers its bytes and then
-- either the end of the file or an error; a writer takes what it has room for and then fails.
use moe_asset_updater_client.Base.Tests.{leb}
use moe_asset_updater_client.Base.Lists.{length, take, drop}
use moe_asset_updater_client.Base.Text.{Bytes}
use Prim.Native.Nat.{ℕ, ◌-◌}
use mathlib.Core.Bool.{Bool, true, false}
use mathlib.Core.Option.{Option, none, some}
use mathlib.Core.List.{◌++◌}

pub record Reader (E : Type 0) : Type 0 where
  pub content : Bytes
  pub fault : Option E
  -- whether that error is `io.ErrUnexpectedEOF` itself, as of a body shorter than was announced
  pub cut : Bool

-- `io.ReadFull`: the bytes asked for and the reader after them; else the bytes there were, with
-- `io.EOF` or `io.ErrUnexpectedEOF` for the end of the stream, or with the reader's own
-- `io.ErrUnexpectedEOF`; else the reader's error.
pub data ReadResult (E : Type 0) : Type 0 where
  full : Bytes → Reader E → ReadResult E
  ended cut_off : Bytes → ReadResult E
  failed : E → ReadResult E

abbrev pub short_read : {E : Type 0} → Bytes → Option E → Bool → ReadResult E
short_read got none cut = ended got
short_read got (some e) true = cut_off got
short_read got (some e) false = failed e

unfoldable pub read_full : {E : Type 0} → Reader E → ℕ → ReadResult E
read_full src n = elim (leb n (length src.content)) [
  | true ↦ full (take n src.content) (record src { content = drop n src.content })
  | false ↦ short_read src.content src.fault src.cut
]

-- The bytes written so far, and the room there is.
pub record Writer : Type 0 where
  pub written : Bytes
  pub room : ℕ

-- What a function that writes leaves behind: the writer, and an error or none.
pub data Written (E : Type 0) : Type 0 where
  written_to : Writer → Option E → Written E

unfoldable pub write : {E : Type 0} → E → Writer → Bytes → Written E
write no_room dst bytes = elim (leb (length bytes) dst.room) [
  | true ↦
      written_to (record { written = dst.written ++ bytes; room = dst.room - length bytes }) none
  | false ↦
      written_to (record { written = dst.written ++ take dst.room bytes; room = 0 }) (some no_room)
]

-- `io.Copy`: all that the reader has left; an error of the writer stops it, one of the reader ends it.
unfoldable pub copy : {E : Type 0} → E → Writer → Reader E → Written E
unfolding write
copy no_room dst src = elim (write no_room dst src.content) [
  | written_to dst' none ↦ written_to dst' src.fault
  | written_to dst' (some e) ↦ written_to dst' (some e)
]
