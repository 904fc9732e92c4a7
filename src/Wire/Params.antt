-- ===== src/Wire/Params.antt =====
-- The Bind message as a server reads it.
use pglite_go.Base.{
  ℕ, zero, suc, ◌+◌, ◌-◌, ◌*◌, ◌/◌, ◌%◌, ◌^◌, ◌<◌, ◌≡◌, refl, ap, sym, ◌∙◌, Bool, true, false,
  Option, none, some, List, [], ◌∷◌, ◌++◌, length, take, arith, ◌==◌, leb, if◌then◌else◌, All,
  append_assoc, append-nil, take-append, drop-append, length-append, foldl-appends, concat_map,
}
use pglite_go.Base.Outcome.{Outcome, ok, panic, ◌>>=◌}
use pglite_go.Wire.Bytes.{append_u16, append_u32, take_u16, take_u32, slice_from, take_string}
use pglite_go.Wire.Message.{bind_params, bind_message, len16, frame}
use pglite_go.Wire.Frames.{bytes_of_u32}
use native.Mathlib.Nat.{mod-eq_of_lt}

-- The message at the front of the server's input: its type, its payload and what follows it. The
-- length counts its own four bytes, and is no machine word here.
pub server_message : List ℕ → Outcome (ℕ × List ℕ × List ℕ)
server_message [] = panic
server_message (typ ∷ p) = do
  n ← take_u32 p
  rest ← slice_from (n.0 - 4) n.1
  ok (typ, take (n.0 - 4) n.1, rest)

-- A server reads `n` parameters: a length, or -1 for NULL, and the bytes.
abbrev param_of : ℕ → List ℕ → Outcome (Option (List ℕ) × List ℕ)
param_of l p =
    if l == 0xFFFFFFFF
    then ok (none, p)
    else (slice_from l p >>= λ rest. ok (some (take l p), rest))

pub server_params : ℕ → List ℕ → Outcome (List (Option (List ℕ)) × List ℕ)
server_params zero p = ok ([], p)
server_params (suc n) p = do
  l ← take_u32 p
  v ← param_of l.0 l.1
  vs ← server_params n v.1
  ok (v.0 ∷ vs.0, vs.1)

pub server_words : ℕ → List ℕ → Outcome (List ℕ × List ℕ)
server_words zero p = ok ([], p)
server_words (suc n) p = do w ← take_u16 p; ws ← server_words n w.1; ok (w.0 ∷ ws.0, ws.1)

-- The portal's and the statement's name, the formats and the values of the parameters, and the
-- formats of the results.
pub record Bind : Type 0 where
  pub portal : List ℕ
  pub statement : List ℕ
  pub param_formats : List ℕ
  pub params : List (Option (List ℕ))
  pub formats : List ℕ

pub server_bind : List ℕ → Outcome Bind
server_bind p = do
  portal ← take_string p
  statement ← take_string portal.1
  nf ← take_u16 statement.1
  pf ← server_words nf.0 nf.1
  np ← take_u16 pf.1
  ps ← server_params np.0 np.1
  nr ← take_u16 ps.1
  rf ← server_words nr.0 nr.1
  ok (record {
    portal = portal.0;
    statement = statement.0;
    param_formats = pf.0;
    params = ps.0;
    formats = rf.0;
  })

-- The values that the caller means: NULL where the flag at the same position is set.
abbrev pub marked : List (List ℕ) → List Bool → List (Option (List ℕ))
marked [] nulls = []
marked (p ∷ ps) [] = some p ∷ marked ps []
marked (p ∷ ps) (is_null ∷ nulls) = (if is_null then none else some p) ∷ marked ps nulls

abbrev pub param_code : Option (List ℕ) → List ℕ
param_code none = append_u32 [] 0xFFFFFFFF
param_code (some p) = append_u32 [] (length p % 2 ^ 32) ++ p

bind_params-eq :
    (b : List ℕ) (ps : List (List ℕ)) (nulls : List Bool)
    → bind_params b ps nulls ≡ b ++ concat_map param_code (marked ps nulls)
unfolding bind_params
bind_params-eq b [] nulls = sym (append-nil b)
bind_params-eq b (p ∷ ps) [] =
    bind_params-eq (append_u32 b (length p % 2 ^ 32) ++ p) ps [] ∙ simp append_assoc
bind_params-eq b (p ∷ ps) (true ∷ nulls) =
    bind_params-eq (append_u32 b 0xFFFFFFFF) ps nulls ∙ simp append_assoc
bind_params-eq b (p ∷ ps) (false ∷ nulls) =
    bind_params-eq (append_u32 b (length p % 2 ^ 32) ++ p) ps nulls ∙ simp append_assoc

-- A value's length must differ from the -1 that stands for NULL.
abbrev pub IsParam : List ℕ → Type 0
IsParam p = length p < 0xFFFFFFFF

param_of-some : (p rest : List ℕ) → IsParam p → param_of (length p) (p ++ rest) ≡ ok (some p, rest)
param_of-some p rest h = rw (differs, fits, take-append p rest, drop-append p rest) refl
  where
    differs : (length p == 0xFFFFFFFF) ≡ false
    differs = ground arith

    fits : leb (length p) (length (p ++ rest)) ≡ true
    fits = ground (arith, length-append p rest)

word_u32 :
    (v : ℕ)
    → v < 2 ^ 32
    → v / 2 ^ 24 % 256 * 2 ^ 24 + v / 2 ^ 16 % 256 * 2 ^ 16 + v / 2 ^ 8 % 256 * 2 ^ 8 + v % 256 ≡ v
word_u32 v h = omega arith

word_u16 : (v : ℕ) → v < 2 ^ 16 → v / 2 ^ 8 % 256 * 2 ^ 8 + v % 256 ≡ v
word_u16 v h = omega arith

length_u32 : (p : List ℕ) → IsParam p → length p < 2 ^ 32
length_u32 p h = omega arith

server_params-code :
    (ps : List (List ℕ)) (nulls : List Bool) (rest : List ℕ)
    → All IsParam ps
    → server_params (length ps) (concat_map param_code (marked ps nulls) ++ rest)
      ≡ ok (marked ps nulls, rest)
unfolding server_params
server_params-code [] nulls rest h = refl
server_params-code (p ∷ ps) [] rest (h, hs) =
    rw
      (
        mod-eq_of_lt (length_u32 p h),
        word_u32 (length p) (length_u32 p h),
        append_assoc p (concat_map param_code (marked ps [])) rest,
        param_of-some p (concat_map param_code (marked ps []) ++ rest) h,
        server_params-code ps [] rest hs,
      )
      refl
server_params-code (p ∷ ps) (true ∷ nulls) rest (h, hs) =
    rw (server_params-code ps nulls rest hs) refl
server_params-code (p ∷ ps) (false ∷ nulls) rest (h, hs) =
    rw
      (
        mod-eq_of_lt (length_u32 p h),
        word_u32 (length p) (length_u32 p h),
        append_assoc p (concat_map param_code (marked ps nulls)) rest,
        param_of-some p (concat_map param_code (marked ps nulls) ++ rest) h,
        server_params-code ps nulls rest hs,
      )
      refl

abbrev pub IsU16 : ℕ → Type 0
IsU16 v = v < 2 ^ 16

server_words-code :
    (ws rest : List ℕ)
    → All IsU16 ws
    → server_words (length ws) (concat_map (append_u16 []) ws ++ rest) ≡ ok (ws, rest)
unfolding server_words
server_words-code [] rest h = refl
server_words-code (w ∷ ws) rest (h, hs) = rw (word_u16 w h, server_words-code ws rest hs) refl

-- The payload of the Bind message.
abbrev pub payload : List (List ℕ) → List Bool → List ℕ → List ℕ
payload ps nulls formats =
    0 ∷ 0 ∷ 0 ∷ 0 ∷ append_u16 [] (len16 ps)
    ++ (concat_map param_code (marked ps nulls)
        ++ (append_u16 [] (len16 formats) ++ concat_map (append_u16 []) formats))

bind_message-eq :
    (ps : List (List ℕ)) (nulls : List Bool) (formats : List ℕ)
    → bind_message ps nulls formats ≡ frame b'B' (payload ps nulls formats)
unfolding bind_message
bind_message-eq ps nulls formats = ap (frame b'B') (
    foldl-appends append_u16 (append_u16 []) (λ e x. refl) _ formats
    ∙ ap (λ t. append_u16 t (len16 formats) ++ concat_map (append_u16 []) formats)
        (bind_params-eq (append_u16 (append_u16 (0 ∷ 0 ∷ []) 0) (len16 ps)) ps nulls)
    ∙ simp append_assoc)

server_bind-payload :
    (ps : List (List ℕ)) (nulls : List Bool) (formats : List ℕ)
    → All IsParam ps
    → All IsU16 formats
    → length ps < 2 ^ 16
    → length formats < 2 ^ 16
    → server_bind (payload ps nulls formats)
      ≡ ok (record {
        portal = [];
        statement = [];
        param_formats = [];
        params = marked ps nulls;
        formats = formats;
      })
unfolding server_bind take_string server_words
server_bind-payload ps nulls formats hp hf np nf =
    rw
      (
        mod-eq_of_lt np,
        word_u16 (length ps) np,
        server_params-code ps nulls
            (append_u16 [] (len16 formats) ++ concat_map (append_u16 []) formats) hp,
        mod-eq_of_lt nf,
        word_u16 (length formats) nf,
        ← append-nil (concat_map (append_u16 []) formats),
        server_words-code formats [] hf,
      )
      refl

server_message-frame :
    (typ : ℕ) (body rest : List ℕ)
    → length body + 4 < 2 ^ 32
    → server_message (frame typ body ++ rest) ≡ ok (typ, body, rest)
unfolding server_message frame
server_message-frame typ body rest h =
    rw
      (
        mod-eq_of_lt h,
        bytes_of_u32 (length body + 4) h,
        cut,
        fits,
        take-append body rest,
        drop-append body rest,
      )
      refl
  where
    cut : length body + 4 - 4 ≡ length body
    cut = omega arith

    fits : leb (length body) (length (body ++ rest)) ≡ true
    fits = ground (arith, length-append body rest)

-- A server that reads the Bind message finds unnamed objects, text parameters, the parameter
-- values with NULL exactly where the flag is set, and the result formats that were asked for, for
-- fewer than 65536 parameters and formats, parameters shorter than the mark for NULL and a payload
-- whose length fits the length field.
pub server_bind-bind_message :
    (ps : List (List ℕ)) (nulls : List Bool) (formats rest : List ℕ)
    → All IsParam ps
    → All IsU16 formats
    → length ps < 2 ^ 16
    → length formats < 2 ^ 16
    → length (payload ps nulls formats) + 4 < 2 ^ 32
    → (body : List ℕ) × (server_message (bind_message ps nulls formats ++ rest)
        ≡ ok (b'B', body, rest))
      × (server_bind body
          ≡ ok (record {
            portal = [];
            statement = [];
            param_formats = [];
            params = marked ps nulls;
            formats = formats;
          }))
server_bind-bind_message ps nulls formats rest hp hf np nf fit = (
  payload ps nulls formats,
  rw (bind_message-eq ps nulls formats)
      (server_message-frame b'B' (payload ps nulls formats) rest fit),
  server_bind-payload ps nulls formats hp hf np nf,
)
