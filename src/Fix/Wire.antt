-- ===== src/Fix/Wire.antt =====
-- From the fields of a sender to those of a receiver: the stream, the parser and the tokeniser together.
use swirly.Base.{
  ℕ, ◌<◌, ◌≡◌, sym, ap, ◌∙◌, List, [], ◌∷◌, ◌++◌, map, length, append_nil, append_assoc, All,
}
use swirly.Fix.Bytes.{Bytes}
use swirly.Fix.Tokeniser.{Tokens, tokenise, put_fields}
use swirly.Fix.Tokeniser.Fields.{IsField, tokenise-put_fields}
use swirly.Fix.Stream.{FixStream, commit, put_all, reset}
use swirly.Fix.Stream.Frame.{IsByte, concat, frame}
use swirly.Fix.Stream.Commit.{commit-frame}
use swirly.Fix.Parser.{Message, Parsed, cleared, parse}
use swirly.Fix.Parser.Frames.{Sent, CanSend, frames, message_of, parse-frames}

-- A version and the fields of a message.
abbrev pub Letter : Type 0
Letter = ℕ × ℕ × List (ℕ × Bytes)

abbrev pub fields_of : Letter → List (ℕ × Bytes)
fields_of (major, minor, fields) = fields

abbrev pub body_of : Letter → Bytes
body_of (major, minor, fields) = put_fields fields

abbrev pub sent : Letter → Sent
sent (major, minor, fields) = (major, minor, put_fields fields)

-- A stream that writes the messages one after the other.
unfoldable pub send_all : List Letter → FixStream → FixStream
send_all [] s = s
send_all ((major, minor, fields) ∷ l) s =
    send_all l (commit (put_all (put_fields fields ∷ []) (reset major minor s)))

pub record IsLetter (x : Letter) : Type 0 where
  pub fields : All IsField (fields_of x)
  pub bytes : All IsByte (body_of x)
  pub sendable : CanSend (sent x)

send_all-frames :
    (l : List Letter) (s : FixStream)
    → All IsLetter l
    → (send_all l s).out ≡ s.out ++ frames (map sent l)
unfolding send_all
send_all-frames [] s h = sym (append_nil s.out)
send_all-frames ((major, minor, fields) ∷ l) s (hx, h) =
    let body = put_fields fields in
    let (hi, lo, small) = hx.sendable in
    let next = commit (put_all (body ∷ []) (reset major minor s)) in
    let whole : concat (body ∷ []) ≡ body = append_nil body in
    let fits : length (concat (body ∷ [])) < 10000 = rw whole small in
    let bytes : All IsByte (concat (body ∷ [])) = rw whole hx.bytes in
    let one : next.out ≡ s.out ++ frame major minor body =
      commit-frame major minor (body ∷ []) s hi lo fits bytes
      ∙ ap (λ b. s.out ++ frame major minor b) whole in
    send_all-frames l next h
    ∙ ap (λ o. o ++ frames (map sent l)) one
    ∙ append_assoc s.out (frame major minor body) (frames (map sent l))

-- What a receiver reads in a message that was handled.
abbrev pub Received : Letter → Message → Type 0
Received x msg = tokenise msg.body ≡ Tokens.all (fields_of x)

abbrev pub ReceivedAll : List Letter → List Message → Type 0
ReceivedAll [] [] = Unit {0}
ReceivedAll (x ∷ l) (msg ∷ ms) = Received x msg × ReceivedAll l ms
ReceivedAll _ _ = ⊥

all_received : (l : List Letter) → All IsLetter l → ReceivedAll l (map message_of (map sent l))
all_received [] h = tt
all_received ((major, minor, fields) ∷ l) (hx, h) =
    (tokenise-put_fields fields hx.fields, all_received l h)

all_sendable : (l : List Letter) → All IsLetter l → All CanSend (map sent l)
all_sendable [] h = tt
all_sendable (x ∷ l) (hx, h) = (hx.sendable, all_sendable l h)

-- If a stream on an empty buffer writes some messages, each with a version of two digits, the
-- text of its fields in bytes, less than 10000 of them, their tags below 2 ^ 31 and no end of a
-- field in their values, then a new parser takes all bytes of the buffer and handles as many
-- messages, in each of which the tokeniser reads the fields of the message at that place.
pub send_all-received :
    (l : List Letter) (s : FixStream)
    → s.out ≡ []
    → All IsLetter l
    → (ms : List Message) × (parse cleared (send_all l s).out
        ≡ Parsed.returned (length (send_all l s).out) cleared ms)
      × ReceivedAll l ms
send_all-received l s start h =
    let e : (send_all l s).out ≡ frames (map sent l) =
      send_all-frames l s h ∙ ap (λ o. o ++ frames (map sent l)) start in
    rw e
      (map message_of (map sent l), parse-frames (map sent l) (all_sendable l h), all_received l h)
