-- ===== src/Runs/Messages.antt =====
-- Messages of the wire protocol, built and taken apart.
use pglite_go.Base.{
  ℕ, ◌≡◌, ◌≢◌, true, false, List, [], ◌∷◌, ◌++◌, none, some, arith, codes, refl, map, All,
}
use pglite_go.Base.Outcome.{ok, err, stuck, server}
use pglite_go.Wire.Value.{Floats, null, text, decode_text, decode_bytea_text}
use pglite_go.Wire.Message.{frame, bind_message}
use pglite_go.Wire.Response.{message, next_message, parse, affected_from_tag}
use pglite_go.Wire.Bytea.{hex_text, decode_bytea_text-hex_text}
use pglite_go.Wire.Frames.{frames, next_message-frame}
use pglite_go.Wire.Parse.{parse-ne-stuck}
use pglite_go.Wire.Reply.{
  Reply, description, row, complete, failure, ready, other, message_of, IsReply, last_status,
  all_rows, cell_values, answer,
}
use pglite_go.Wire.Reply.Decoded.{parse-message_of}
use pglite_go.Wire.Bytes.{pos, blank_spaces, last_field, parse_int, digits, digits_from}
use pglite_go.Wire.Params.{server_bind, server_message, server_bind-bind_message}

-- Floating-point numbers as their texts or bit patterns.
abbrev texts : Floats
texts = record {
  F = List ℕ;
  parse_float = λ s. some s;
  float32_from_bits = λ n. n ∷ [];
  float64_from_bits = λ n. n ∷ [];
}

-- A row description of one text column, a row, a NULL, the tag, a failure and the status.
abbrev response : List Reply
response =
    description (
      record {
        name = codes "a";
        table = 0;
        number = 0;
        oid = 25;
        type_size = 65535;
        modifier = 4294967295;
        format = 0;
      }
      ∷ [])
    ∷ row (some (codes "hi") ∷ [])
    ∷ row (none ∷ [])
    ∷ complete (codes "SELECT 2")
    ∷ other b'N' []
    ∷ failure ((b'S', codes "ERROR") ∷ (b'M', codes "no") ∷ [])
    ∷ ready b'E'
    ∷ []

response-IsReply : All IsReply response
response-IsReply = (
  ((omega arith, (((refl, tt), omega arith, omega arith), tt)), omega arith),
  (
    ((omega arith, (omega arith, tt)), omega arith),
    (
      ((omega arith, (tt, tt)), omega arith),
      (
        ((refl, (refl, (refl, (refl, (refl, (refl, (refl, (refl, tt)))))))), omega arith),
        (
          ((refl, refl, refl, refl, refl), omega arith),
          (
            (
              (
                (refl, (refl, (refl, (refl, (refl, (refl, tt)))))),
                ((refl, (refl, (refl, tt))), tt),
              ),
              omega arith,
            ),
            ((tt, omega arith), tt),
          ),
        ),
      ),
    ),
  ),
)

-- What this response says.
response-answer : answer texts response ≡ err (server (codes "ERROR: no"))
unfolding cell_values all_rows
response-answer = refl

response_rows : all_rows texts [] response ≡ (text (codes "hi") ∷ []) ∷ (null ∷ []) ∷ []
unfolding cell_values all_rows decode_text
response_rows = refl

-- U+00A0 separates the fields of a tag.
affected_example : affected_from_tag (codes "COPY" ++ (0xC2 ∷ 0xA0 ∷ codes "12")) ≡ pos 12
unfolding affected_from_tag blank_spaces last_field parse_int digits digits_from
affected_example = refl

server_bind-bind_message_example :
    (body : List ℕ) × (server_message
        (bind_message (codes "a" ∷ [] ∷ []) (false ∷ true ∷ []) (1 ∷ []) ++ (5 ∷ []))
      ≡ ok (b'B', body, 5 ∷ []))
    × (server_bind body
        ≡ ok (record {
          portal = [];
          statement = [];
          param_formats = [];
          params = some (codes "a") ∷ none ∷ [];
          formats = 1 ∷ [];
        }))
server_bind-bind_message_example =
    server_bind-bind_message (codes "a" ∷ [] ∷ []) (false ∷ true ∷ []) (1 ∷ []) (5 ∷ [])
      (omega arith, (omega arith, tt)) (omega arith, tt) (omega arith) (omega arith) (omega arith)

parse-message_of_example :
    parse texts b'I' (frames (map message_of response))
    ≡ ok (answer texts response, last_status b'I' response)
parse-message_of_example = parse-message_of texts b'I' response response-IsReply

parse-ne-stuck_example : parse texts b'I' (b'T' ∷ 0 ∷ 0 ∷ 0 ∷ 9 ∷ []) ≢ stuck
parse-ne-stuck_example = parse-ne-stuck texts b'I' (b'T' ∷ 0 ∷ 0 ∷ 0 ∷ 9 ∷ [])

decode_bytea_text-hex_text_example :
    (decode_bytea_text (92 ∷ b'x' ∷ hex_text b'a' (171 ∷ 7 ∷ [])) ≡ some (171 ∷ 7 ∷ []))
    × (decode_bytea_text (92 ∷ b'x' ∷ hex_text b'A' (171 ∷ 7 ∷ [])) ≡ some (171 ∷ 7 ∷ []))
decode_bytea_text-hex_text_example =
    decode_bytea_text-hex_text (171 ∷ 7 ∷ []) (omega arith, (omega arith, tt))

next_message-frame_example :
    next_message (frame b'Z' (b'I' ∷ []) ++ (1 ∷ [])) ≡ message b'Z' (b'I' ∷ []) (1 ∷ [])
next_message-frame_example = next_message-frame b'Z' (b'I' ∷ []) (1 ∷ []) (omega arith)
