-- ===== src/Vfs/Tree/Files.antt =====
-- Open, vfs/vfs.go, keeps the nodes a tree.
use pglite_go.Base.{
  ℕ, refl, Bool, true, false, ◌&&◌, Bool-cases, inl, inr, Option, none, some, ◌==◌, bit_and,
}
use pglite_go.Base.Outcome.{Outcome, ok, err, panic, stuck, ◌>>=◌ as ◌>>=ᵒ◌}
use pglite_go.Base.Action.{continue, ◌>>=◌, Holds, Holds-continue}
use pglite_go.Vfs.Path.{Text, rel_name}
use pglite_go.Vfs.File.{Node}
use pglite_go.Vfs.Memory.{
  Memory, is_regular, new_node, regular, set_node, place_new, has_flag, o_trunc, o_creat, size,
}
use pglite_go.Vfs.Overlay.{Lower, Ref, upper, synth, node_of, in_upper, look, copy_up}
use pglite_go.Vfs.System.{Handle, Fs, on_mem, new_fd}
use pglite_go.Vfs.Paths.{
  at_cwd, clear_bytes, open_found, open_node, open_at, open_as, open_lower_handle, handle_step,
  handle_for, o_access,
}
use pglite_go.Vfs.Tree.{IsTree, set_node-IsTree}
use pglite_go.Vfs.Tree.Links.{alloc-IsTree}
use pglite_go.Vfs.Tree.Layer.{Made, MadeBelow, place_new-Keeps}
use pglite_go.Vfs.Tree.Copy.{copy_up-Keeps}
use pglite_go.Vfs.Tree.Lookup.{Plain, FoundAt, look-Found}
use pglite_go.Vfs.Tree.Calls.{KeepsTree, on_mem-KeepsTree, Grows-IsTree}

-- A buffer of the upper layer is replaced.
pub store-IsTree :
    (n : ℕ) (b : Option Node) (m : Memory)
    → IsTree m
    → IsTree (set_node n (record (m.at n) { bytes = b }) m)
store-IsTree n b m t =
    set_node-IsTree n (record (m.at n) { bytes = b }) m (refl, refl, refl) (λ k c e. e) t

-- The node that Open works on has no children if it is made up.
abbrev KeepsPlain : Outcome (Ref × Text) × Fs → Type 0
KeepsPlain r = Holds (λ v. IsTree v.mem) (λ a v. Plain a.0) r

module _ (lower : Option Lower) where
  pub copy_up-at :
      (abs : Text) (r : Ref) (empty : Bool) (v : Fs)
      → IsTree v.mem
      → Holds (λ w. IsTree w.mem) (λ n w. Made n w.mem) (on_mem (copy_up lower abs r empty) v)
  copy_up-at abs r empty v t = on_mem-KeepsTree (copy_up lower abs r empty v.mem) v Made (
      Grows-IsTree none v.mem Made (copy_up lower abs r empty v.mem)
        (copy_up-Keeps lower abs r empty v.mem t))

  cut-KeepsPlain :
      (r : Ref) (abs : Text) (v : Fs)
      → IsTree v.mem
      → KeepsPlain (
          continue
            (on_mem (copy_up lower abs r true) v)
            (λ n. clear_bytes lower n >>= λ q w. (ok (q, abs), w)))
  cut-KeepsPlain r abs v t =
      Holds-continue (λ a w. Plain a.0) (on_mem (copy_up lower abs r true) v)
        (λ n. clear_bytes lower n >>= λ q w. (ok (q, abs), w)) (λ w t'. t')
        (λ n w t' made. (store-IsTree n none w.mem t', tt)) (copy_up-at abs r true v t)

  copied-KeepsPlain :
      (r : Ref) (abs : Text) (v : Fs)
      → IsTree v.mem
      → KeepsPlain (continue (on_mem (copy_up lower abs r false) v) (λ n w. (ok (upper n, abs), w)))
  copied-KeepsPlain r abs v t =
      Holds-continue (λ a w. Plain a.0) (on_mem (copy_up lower abs r false) v)
        (λ n w. (ok (upper n, abs), w)) (λ w t'. t') (λ n w t' made. (t', tt))
        (copy_up-at abs r false v t)

  open_found-KeepsPlain :
      (flags : ℕ) (r : Ref) (abs : Text) (v : Fs)
      → Plain r
      → IsTree v.mem
      → KeepsPlain (open_found lower flags r abs v)
  open_found-KeepsPlain flags r abs v plain t =
      elim (Bool-cases (is_regular (node_of r v.mem).type && has_flag flags o_trunc)) [
        | inl cut ↦ rw cut (cut-KeepsPlain r abs v t)
        | inr kept ↦
            elim (Bool-cases (has_flag flags o_access && is_regular (node_of r v.mem).type)) [
              | inl written ↦ rw (kept, written) (copied-KeepsPlain r abs v t)
              | inr looked ↦ rw (kept, looked) (t, plain)
            ]
      ]

  open_node-KeepsPlain :
      (abs : Text) (flags mode : ℕ) (o : Option (Ref × Text)) (v : Fs)
      → FoundAt o
      → IsTree v.mem
      → KeepsPlain (open_node lower abs flags mode o v)
  open_node-KeepsPlain abs flags mode (some (r, resolved)) v f t =
      open_found-KeepsPlain flags r resolved v f t
  open_node-KeepsPlain abs flags mode none v f t = elim (Bool-cases (bit_and flags o_creat == 0)) [
    | inl plain ↦ rw plain t
    | inr create ↦
        let new = place_new (rel_name abs) (new_node regular mode) in
        let placed : Holds (λ w. IsTree w.mem) (λ n w. MadeBelow n w.mem) (on_mem new v) =
          on_mem-KeepsTree (new v.mem) v MadeBelow (
            Grows-IsTree none v.mem MadeBelow (new v.mem)
              (place_new-Keeps (rel_name abs) (new_node regular mode) v.mem refl t)) in
        let all : KeepsPlain (continue (on_mem new v) (λ n w. (ok (upper n, abs), w))) =
          Holds-continue (λ a w. Plain a.0) (on_mem new v) (λ n w. (ok (upper n, abs), w))
            (λ w t'. t') (λ n w t' made. (t', tt)) placed in
        rw create all
  ]

  handle_step-KeepsTree :
      (o : Option ℕ) (r : Ref) (abs : Text) (v : Fs)
      → Plain r
      → IsTree v.mem
      → KeepsTree (handle_step lower o r abs v)
  handle_step-KeepsTree (some u) (upper n) abs v plain t = (t, tt)
  handle_step-KeepsTree (some u) (synth i) abs v plain t = (alloc-IsTree i v.mem plain t, tt)
  handle_step-KeepsTree none r abs v plain t =
      opened (open_lower_handle lower abs (size (node_of r v.mem)))
    where
      opened :
          (o : Outcome Handle)
          → KeepsTree {A = Option Handle × Ref} ((o >>=ᵒ λ h. ok (some h, r)), v)
      opened (ok h) = (t, tt)
      opened (err e) = t
      opened panic = t
      opened stuck = t

  handle_for-KeepsTree :
      (r : Ref) (abs : Text) (v : Fs)
      → Plain r
      → IsTree v.mem
      → KeepsTree (handle_for lower r abs v)
  handle_for-KeepsTree r abs v plain t = elim (Bool-cases (is_regular (node_of r v.mem).type)) [
    | inl file ↦ rw file (handle_step-KeepsTree (in_upper abs v.mem) r abs v plain t)
    | inr other ↦ rw other (t, tt)
  ]

  pub open_at-KeepsTree :
      (p : Text) (flags mode : ℕ) (v : Fs) → IsTree v.mem → KeepsTree (open_at lower p flags mode v)
  unfolding open_at new_fd
  open_at-KeepsTree p flags mode v t =
      let found = look lower v.mem true (at_cwd v p) in
      Holds-continue (λ a w. Unit {0}) (open_node lower (at_cwd v p) flags mode found v)
        (λ f. handle_for lower f.0 f.1 >>= λ h. open_as lower flags f.1 h.0 h.1) (λ w t'. t')
        (λ f w t' plain.
          Holds-continue (λ a u. Unit {0}) (handle_for lower f.0 f.1 w)
            (λ h. open_as lower flags f.1 h.0 h.1) (λ u t''. t'') (λ h u t'' p'. (t'', tt))
            (handle_for-KeepsTree f.0 f.1 w plain t'))
        (open_node-KeepsPlain (at_cwd v p) flags mode found v
          (look-Found lower v.mem true (at_cwd v p)) t)
