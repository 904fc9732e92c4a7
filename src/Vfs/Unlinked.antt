-- ===== src/Vfs/Unlinked.antt =====
-- What a lookup of vfs/vfs.go that follows links, `eval`, finds at a path behind Unlink.
use pglite_go.Base.{
  ℕ, suc, ◌≡◌, refl, sym, ◌∙◌, ap, subst, Bool, true, false, Option-cases, inl, inr, Option, none,
  some, List, [], ◌∷◌, ◌++◌, All, bytes_eq, append_assoc,
}
use pglite_go.Base.Outcome.{ok}
use pglite_go.Base.Action.{Ends}
use pglite_go.Vfs.Path.{
  Text, dots, split_slash, join_slash, is_empty, clean, clean_parts, reverse_onto, rel_name,
  split_name, or_dot,
}
use pglite_go.Vfs.Path.Canonical.{
  AreNames, split_slash-join_slash, join_slash_full, split_name-join_slash,
}
use pglite_go.Vfs.Memory.{Memory, is_symlink}
use pglite_go.Vfs.Overlay.{
  Lower, Ref, node_of, lower_info, lower_has, stat_node, eval_loop, eval, look,
}
use pglite_go.Vfs.System.{Fs}
use pglite_go.Vfs.Paths.{at_cwd, unlink_at}
use pglite_go.Vfs.Tree.Climb.{reverse_back}
use pglite_go.Vfs.Tree.Copy.{IsBelow}
use pglite_go.Vfs.Tree.Reach.{Reached}
use pglite_go.Vfs.Visible.{unlink_at-hides}

-- A component that does not lead upwards.
abbrev pub IsDown : Text → Type 0
IsDown t = bytes_eq t dots ≡ false

clean_parts-names :
    (kept ts : List Text)
    → AreNames ts
    → All IsDown ts
    → clean_parts true kept ts ≡ reverse_onto ts kept
unfolding clean_parts AreNames
clean_parts-names kept [] h d = refl
clean_parts-names kept (t ∷ ts) ((full, named, h), hs) (d, ds) =
    rw (full, named, d) (clean_parts-names (t ∷ kept) ts hs ds)

clean-join_slash :
    (t : Text) (ts : List Text)
    → AreNames (t ∷ ts)
    → All IsDown (t ∷ ts)
    → clean (b'/' ∷ join_slash (t ∷ ts)) ≡ b'/' ∷ join_slash (t ∷ ts)
unfolding clean split_slash clean_parts
clean-join_slash t ts h d =
    let kept = clean_parts-names [] (t ∷ ts) h d in
    rw (split_slash-join_slash t ts h) (
      ap (λ ps. b'/' ∷ join_slash (reverse_onto ps [])) kept
      ∙ ap (λ ps. b'/' ∷ join_slash ps) (reverse_back (t ∷ ts)))

not_alone : (s : Text) → is_empty s ≡ false → bytes_eq (b'/' ∷ s) (b'/' ∷ []) ≡ false
unfolding bytes_eq
not_alone [] h = absurd (cc h)
not_alone (c ∷ s) h = refl

rel_name-join_slash :
    (t : Text) (ts : List Text)
    → AreNames (t ∷ ts)
    → All IsDown (t ∷ ts)
    → rel_name (b'/' ∷ join_slash (t ∷ ts)) ≡ join_slash (t ∷ ts)
unfolding rel_name
rel_name-join_slash t ts h d =
    rw (clean-join_slash t ts h d) (as_it_is (join_slash (t ∷ ts)) (join_slash_full t ts h))
  where
    as_it_is : (s : Text) → is_empty s ≡ false → or_dot s ≡ s
    as_it_is [] e = absurd (cc e)
    as_it_is (c ∷ s) e = refl

join_slash-IsBelow :
    (t : Text) (ts : List Text)
    → AreNames (t ∷ ts)
    → All IsDown (t ∷ ts)
    → IsBelow (b'/' ∷ join_slash (t ∷ ts))
join_slash-IsBelow t ts h d e =
    let parts : split_name (rel_name (b'/' ∷ join_slash (t ∷ ts))) ≡ t ∷ ts =
      ap split_name (rel_name-join_slash t ts h d) ∙ split_name-join_slash (t ∷ ts) h in
    cc (sym parts ∙ e)

abbrev shows_link : Option Ref → Memory → Bool
shows_link none m = false
shows_link (some r) m = is_symlink (node_of r m).type

module _ (lower : Option Lower) where
  -- None of the directories on the way to the last component is shown as a symbolic link.
  unfoldable pub HasNoLink : Memory → Text → List Text → Type 0
  HasNoLink m cur [] = Unit {0}
  HasNoLink m cur (t ∷ []) = Unit {0}
  HasNoLink m cur (t ∷ u ∷ ts) =
      (shows_link (stat_node lower (cur ++ (b'/' ∷ t)) m) m ≡ false)
      × HasNoLink m (cur ++ (b'/' ∷ t)) (u ∷ ts)

  eval_loop-none :
      (ev : Text → Option (Ref × Text)) (m : Memory) (follow : Bool) (t : Text) (ts : List Text)
      (cur : Text) (found : Option Ref)
      → AreNames (t ∷ ts)
      → HasNoLink m cur (t ∷ ts)
      → stat_node lower (cur ++ (b'/' ∷ join_slash (t ∷ ts))) m ≡ none
      → eval_loop lower ev m follow (t ∷ ts) cur found ≡ none
  unfolding eval_loop AreNames HasNoLink join_slash
  eval_loop-none ev m follow t [] cur found ((full, named, h), hs) l gone = rw (full, gone) refl
  eval_loop-none ev m follow t (u ∷ ts) cur found ((full, named, h), hs) (l, ls) gone =
      elim (Option-cases (stat_node lower (cur ++ (b'/' ∷ t)) m)) [
        | inl missing ↦ rw (full, missing) refl
        | inr (r, at) ↦
            let plain : is_symlink (node_of r m).type ≡ false =
              ap (λ o. shows_link o m) (sym at) ∙ l in
            let next = cur ++ (b'/' ∷ t) in
            let gone' : stat_node lower (next ++ (b'/' ∷ join_slash (u ∷ ts))) m ≡ none =
              ap (λ s. stat_node lower s m)
                (append_assoc cur (b'/' ∷ t) (b'/' ∷ join_slash (u ∷ ts)))
              ∙ gone in
            rw (full, at, plain) (eval_loop-none ev m follow u ts next (some r) hs ls gone')
      ]

  eval-none :
      (n : ℕ) (m : Memory) (follow : Bool) (t : Text) (ts : List Text)
      → AreNames (t ∷ ts)
      → All IsDown (t ∷ ts)
      → HasNoLink m [] (t ∷ ts)
      → stat_node lower (b'/' ∷ join_slash (t ∷ ts)) m ≡ none
      → eval lower (suc n) m follow (b'/' ∷ join_slash (t ∷ ts)) ≡ none
  unfolding eval
  eval-none n m follow t ts h d l gone =
      rw
        (
          clean-join_slash t ts h d,
          not_alone (join_slash (t ∷ ts)) (join_slash_full t ts h),
          split_slash-join_slash t ts h,
          eval_loop-none (eval lower n m true) m follow t ts [] none h l gone,
        )
        refl

  -- In a reachable state, where Unlink of a path below the root succeeds, a lookup of that path,
  -- whether it follows a link at the end or not, finds nothing behind it, in whichever layers the
  -- path was, if no directory on the way to its last component is shown as a symbolic link there,
  -- and if a path that fs.Stat does not find in the lower layer is not found by fs.Lstat either.
  pub unlink_at-look :
      (p t : Text) (ts : List Text) (v w : Fs) (follow : Bool)
      → Reached lower v
      → at_cwd v p ≡ b'/' ∷ join_slash (t ∷ ts)
      → AreNames (t ∷ ts)
      → All IsDown (t ∷ ts)
      → (lower_has lower (at_cwd v p) ≡ false → lower_info lower (at_cwd v p) ≡ none)
      → unlink_at lower p v ≡ (ok tt, w)
      → HasNoLink w.mem [] (t ∷ ts)
      → look lower w.mem follow (at_cwd v p) ≡ none
  unlink_at-look p t ts v w follow r e h d resolved done l =
      let below : IsBelow (at_cwd v p) = subst IsBelow (sym e) (join_slash-IsBelow t ts h d) in
      let hidden : stat_node lower (at_cwd v p) w.mem ≡ none =
        subst (Ends (λ w. Unit {0}) (λ u w. stat_node lower (at_cwd v p) w.mem ≡ none)) done
          (unlink_at-hides lower p v r below resolved) in
      ap (eval lower 41 w.mem follow) e
      ∙ eval-none 40 w.mem follow t ts h d l (ap (λ s. stat_node lower s w.mem) (sym e) ∙ hidden)
