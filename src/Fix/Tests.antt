-- ===== src/Fix/Tests.antt =====
-- The FIX protocol on concrete inputs: a heartbeat and a logon.
use swirly.Base.{ℕ, ◌≡◌, refl, List, [], ◌∷◌, ◌++◌, length, ◌<◌, ◌^◌, drop, All, arith}
use swirly.Fix.Bytes.{Bytes, put_int, put_digits}
use swirly.Fix.Tokeniser.{put_fields, put_field}
use swirly.Fix.Tokeniser.Fields.{IsField}
use swirly.Fix.Stream.{
  FixStream, commit, put_all, reset, commit_buf, set_body_length, put_length, put_length_digit,
  overflow, xsputn, put_check_sum, add_bytes, put,
}
use swirly.Fix.Stream.Frame.{concat, frame}
use swirly.Fix.Stream.Commit.{commit-frame}
use swirly.Fix.Parser.{Message, Parsed, cleared, parse}
use swirly.Fix.Parser.Rounds.{resumed}
use swirly.Fix.Parser.Chunks.{parse-chunks}
use swirly.Fix.Wire.{Letter, IsLetter, ReceivedAll, send_all, send_all-received}

-- 35=0, 34=7
abbrev fields : List (ℕ × Bytes)
fields = (35, 48 ∷ []) ∷ (34, 55 ∷ []) ∷ []

fields-IsField : All IsField fields
fields-IsField = (
  (omega arith, ((λ e. absurd (omega (arith, e))), tt)),
  ((omega arith, ((λ e. absurd (omega (arith, e))), tt)), tt),
)

abbrev stream : FixStream
stream = record { buf = record { written = []; sum = 0 }; bloff = 0; out = [] }

-- The same text in two parts.
abbrev texts : List Bytes
texts = (51 ∷ 53 ∷ 61 ∷ []) ∷ (48 ∷ 1 ∷ []) ∷ []

commit-frame_example :
    (commit (put_all texts (reset 4 2 stream))).out ≡ [] ++ frame 4 2 (concat texts)
commit-frame_example =
    commit-frame 4 2 texts stream (omega arith) (omega arith) (omega arith)
      (omega arith, (omega arith, (omega arith, (omega arith, (omega arith, tt)))))

-- The start of a message.
abbrev start : Bytes
start = 56 ∷ 61 ∷ 70 ∷ 73 ∷ 88 ∷ []

abbrev letter : Letter
letter = (4, 2, (35, 48 ∷ []) ∷ [])

letter-IsLetter : IsLetter letter
unfolding put_fields put_field put_int put_digits
letter-IsLetter = record {
  fields = ((omega arith, ((λ e. absurd (omega (arith, e))), tt)), tt);
  bytes = (omega arith, (omega arith, (omega arith, (omega arith, (omega arith, tt)))));
  sendable = (omega arith, omega arith, omega arith);
}

abbrev sent : Bytes
sent = (send_all (letter ∷ []) stream).out

sent-small : length (sent ++ start) < 2 ^ 63
unfolding send_all commit commit_buf set_body_length put_length put_length_digit overflow xsputn
    put_check_sum add_bytes put put_all reset put_fields put_field put_int put_digits
sent-small = omega arith

-- What the parser has received of it.
received :
    (ms : List Message) × (parse cleared sent ≡ Parsed.returned (length sent) cleared ms)
    × ReceivedAll (letter ∷ []) ms
received = send_all-received (letter ∷ []) stream refl (letter-IsLetter, tt)

-- A whole message, and then the start of the next.
parse-chunks_example :
    parse cleared (sent ++ start)
    ≡ resumed (length sent) (received.0) (parse cleared (drop (length sent) sent ++ start))
parse-chunks_example =
    parse-chunks cleared sent start (length sent) cleared received.0 sent-small received.1

send_all-received_example :
    (ms : List Message) × (parse cleared (send_all (letter ∷ []) stream).out
      ≡ Parsed.returned (length (send_all (letter ∷ []) stream).out) cleared ms)
    × ReceivedAll (letter ∷ []) ms
send_all-received_example = send_all-received (letter ∷ []) stream refl (letter-IsLetter, tt)
