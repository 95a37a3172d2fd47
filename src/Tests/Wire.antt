-- ===== src/Tests/Wire.antt =====
-- Records in fragments, and streams that are cut off.
use fernfs.Prelude.{◌≡◌, [], List, ◌∷◌, arith}
use fernfs.Io.{unexpected_eof}
use fernfs.Rpc.Wire.{new_handler, read_loop, receive}
use fernfs.Rpc.Wire.Records.{Cut, encode_stream, receive-encode_stream}
use fernfs.Rpc.Wire.Written.{write_all, receive-write_all, nonempty}
use fernfs.Rpc.Wire.Bounds.{IsBounded, receive-IsBounded, Ends, read_loop-Ends}

abbrev two_records : List Cut
two_records =
    record { firsts = (1 ∷ 2 ∷ []) ∷ [] ∷ []; final = 3 ∷ [] }
    ∷ record { firsts = []; final = 4 ∷ 5 ∷ [] }
    ∷ []

receive-encode_stream_example : receive (encode_stream two_records) ≡ (
  record { cur_fragment = []; submitted = (1 ∷ 2 ∷ 3 ∷ []) ∷ (4 ∷ 5 ∷ []) ∷ [] },
  unexpected_eof,
)
receive-encode_stream_example = receive-encode_stream two_records (omega arith)

receive-write_all_example :
    receive (write_all ((1 ∷ 2 ∷ []) ∷ (3 ∷ []) ∷ []))
    ≡ (record { cur_fragment = []; submitted = (1 ∷ 2 ∷ []) ∷ (3 ∷ []) ∷ [] }, unexpected_eof)
receive-write_all_example = receive-write_all ((1 ∷ 2 ∷ []) ∷ (3 ∷ []) ∷ []) (
  (nonempty (1 ∷ 2 ∷ []) (omega arith), omega arith),
  ((nonempty (3 ∷ []) (omega arith), omega arith), tt),
)

receive-IsBounded_example : IsBounded (receive (255 ∷ 255 ∷ 255 ∷ 255 ∷ 1 ∷ [])).0
receive-IsBounded_example = receive-IsBounded (255 ∷ 255 ∷ 255 ∷ 255 ∷ 1 ∷ [])

read_loop-Ends_example :
    (let end = read_loop 9 new_handler (128 ∷ 0 ∷ 0 ∷ 1 ∷ 6 ∷ []) in
      Ends new_handler (128 ∷ 0 ∷ 0 ∷ 1 ∷ 6 ∷ []) end.0 end.1)
read_loop-Ends_example = read_loop-Ends 9 new_handler (128 ∷ 0 ∷ 0 ∷ 1 ∷ 6 ∷ []) (omega arith)
