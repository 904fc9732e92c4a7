-- ===== src/Emscripten/Patch/Rewrite.antt =====
-- `rewriteImportSection` of emscripten/patch.go on an encoded import section.
use pglite_go.Base.{
  ℕ, ◌^◌, ◌<◌, ◌≡◌, refl, ap, sym, ◌∙◌, List, [], ◌∷◌, ◌++◌, length, map, concat_map, All, true,
  false, Bool, bytes_eq, codes, arith, append_assoc, append-nil, ◌&&◌, if◌then◌else◌,
}
use pglite_go.Base.Outcome.{ok}
use pglite_go.Cursor.{input}
use pglite_go.Emscripten.Codec.{encode_leb128_u, encode_name}
use pglite_go.Emscripten.Takes.{
  Takes, Takes-bind, Takes-pure, Takes-map, Takes-byte_at, Takes-uint_at, Takes-bytes_at,
}
use pglite_go.Emscripten.Patch.{
  new_mod_name, copy_limits, copy_type, rewrite_entry, rewrite_loop, rounds, rewrite_section,
  rewrite_import_section, value_of,
}
use pglite_go.Emscripten.Patch.Entry.{
  Limits, least, between, shared, shared_between, Desc, func, table, memory, global, Entry,
  limits_code, kind_of, desc_code, entry_code, imports_code, redirected, redirect, IsLimits, IsDesc,
  IsEntry,
}

Takes-copy_limits :
    (l : Limits) (result : List ℕ)
    → IsLimits l
    → Takes (copy_limits result) (limits_code l) (result ++ limits_code l)
unfolding copy_limits
Takes-copy_limits (least n) result h =
    Takes-bind _ (Takes-byte_at 0) (Takes-map _ (Takes-uint_at n h) (λ c p. simp (append_assoc)))
Takes-copy_limits (between n m) result (h, k) = Takes-bind _ (Takes-byte_at 1) (
    Takes-bind _ (Takes-uint_at n h) (Takes-map _ (Takes-uint_at m k) (λ c p. simp (append_assoc))))
Takes-copy_limits (shared n) result h =
    Takes-bind _ (Takes-byte_at 2) (Takes-map _ (Takes-uint_at n h) (λ c p. simp (append_assoc)))
Takes-copy_limits (shared_between n m) result h = absurd h

Takes-copy_type :
    (d : Desc) (result : List ℕ)
    → IsDesc d
    → Takes (copy_type (kind_of d) result) (desc_code d) (result ++ desc_code d)
unfolding copy_type
Takes-copy_type (func t) result h = Takes-map _ (Takes-uint_at t h) (λ c p. refl)
Takes-copy_type (table e l) result h =
    rw (sym (append_assoc result (e ∷ []) (limits_code l)))
      (Takes-bind _ (Takes-byte_at e) (Takes-copy_limits l (result ++ (e ∷ [])) h))
Takes-copy_type (memory l) result h = Takes-copy_limits l result h
Takes-copy_type (global t m) result h =
    Takes-bind _ (Takes-byte_at t) (Takes-map _ (Takes-byte_at m) (λ c p. refl))

-- The test of the kind, for an import that is no function and for one that is.
not_function :
    {A : Type 0} (b : Bool) (x y : A) → (if b && true then x else y) ≡ (if b then x else y)
not_function true x y = refl
not_function false x y = refl

is_function : {A : Type 0} (b : Bool) (x y : A) → (if b && false then x else y) ≡ y
is_function true x y = refl
is_function false x y = refl

new_mod_name-redirected : (d : Desc) (s : List ℕ) → new_mod_name s (kind_of d) ≡ redirected d s
unfolding new_mod_name
new_mod_name-redirected (func t) s = is_function (bytes_eq s (codes "env")) (codes "env.extras") s
new_mod_name-redirected (table e l) s =
    not_function (bytes_eq s (codes "env")) (codes "env.extras") s
new_mod_name-redirected (memory l) s =
    not_function (bytes_eq s (codes "env")) (codes "env.extras") s
new_mod_name-redirected (global t m) s =
    not_function (bytes_eq s (codes "env")) (codes "env.extras") s

Takes-rewrite_entry :
    (e : Entry) (result : List ℕ)
    → IsEntry e
    → Takes (rewrite_entry result) (entry_code e) (result ++ entry_code (redirect e))
unfolding rewrite_entry encode_name
Takes-rewrite_entry e result (hm, hf, hd) =
    let m = e.mod_name in
    let f = e.field_name in
    let k = kind_of e.desc in
    let front = result ++ encode_name (new_mod_name m k) ++ encode_name f ++ (k ∷ []) in
    let shape : front ++ desc_code e.desc
        ≡ result
          ++ (encode_name (redirected e.desc m)
              ++ (encode_name f ++ ((k ∷ []) ++ desc_code e.desc))) =
      rw (new_mod_name-redirected e.desc m) (simp append_assoc) in
    rw
      (
        sym shape,
        append_assoc (encode_leb128_u (length m)) m _,
        append_assoc (encode_leb128_u (length f)) f _,
      )
      (Takes-bind _ (Takes-uint_at (length m) hm) (
        Takes-bind _ (Takes-bytes_at m) (
          Takes-bind _ (Takes-uint_at (length f) hf) (
            Takes-bind _ (Takes-bytes_at f)
              (Takes-bind _ (Takes-byte_at k) (Takes-copy_type e.desc front hd))))))

Takes-rewrite_loop :
    (es : List Entry) (result : List ℕ)
    → All IsEntry es
    → Takes
        (rewrite_loop (length es) result)
        (concat_map entry_code es)
        (result ++ concat_map (λ e. entry_code (redirect e)) es)
unfolding rewrite_loop
Takes-rewrite_loop [] result h = rw (append-nil result) (Takes-pure result)
Takes-rewrite_loop (e ∷ es) result (h, hs) =
    rw
      (sym (
        append_assoc result (entry_code (redirect e))
          (concat_map (λ x. entry_code (redirect x)) es)))
      (Takes-bind _ (Takes-rewrite_entry e result h)
        (Takes-rewrite_loop es (result ++ entry_code (redirect e)) hs))

rounds-small : (n : ℕ) → n < 2 ^ 63 → rounds n ≡ n
unfolding rounds
rounds-small n h = ground (arith, h)

concat_map-redirect :
    (es : List Entry)
    → concat_map (λ e. entry_code (redirect e)) es ≡ concat_map entry_code (map redirect es)
concat_map-redirect [] = refl
concat_map-redirect (e ∷ es) = ap (λ t. entry_code (redirect e) ++ t) (concat_map-redirect es)

length-map : (es : List Entry) → length (map redirect es) ≡ length es
length-map [] = refl
length-map (e ∷ es) = omega (arith, length-map es)

-- The patch of an encoded import section, whatever follows it in the buffer, is the encoding of
-- the same imports with env replaced by env.extras in those that are not functions, for fewer than
-- 2^63 imports, numbers below 2^64, and imports of the four kinds (function, table, memory,
-- global) whose limits have the flags 0, 1 or 2: of flag 3, a shared memory with a maximum, the
-- patch does not read the maximum.
pub rewrite_import_section-imports_code :
    (es : List Entry) (rest beyond : List ℕ)
    → length es < 2 ^ 63
    → All IsEntry es
    → rewrite_import_section (input (imports_code es ++ rest) beyond)
      ≡ ok (imports_code (map redirect es))
unfolding rewrite_import_section rewrite_section
rewrite_import_section-imports_code es rest beyond short h =
    let n = length es in
    let all : Takes (rewrite_loop (rounds n) (encode_leb128_u n)) (concat_map entry_code es)
        (encode_leb128_u n ++ concat_map (λ e. entry_code (redirect e)) es) =
      rw (rounds-small n short) (Takes-rewrite_loop es (encode_leb128_u n) h) in
    ap value_of ((Takes-bind _ (Takes-uint_at n (omega (arith, short))) all).at [] rest beyond)
    ∙ rw (length-map es) (ap (λ t. ok (encode_leb128_u n ++ t)) (concat_map-redirect es))
