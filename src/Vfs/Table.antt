-- ===== src/Vfs/Table.antt =====
-- The descriptor table of vfs/vfs.go: new descriptors.
use pglite_go.Base.{
  ℕ, ◌+◌, ◌%◌, ◌^◌, ◌≡◌, ◌≢◌, refl, sym, ◌∙◌, ap, subst, true, false, ◌&&◌, Bool-cases, inl, inr,
  Option, none, some, [], ◌∷◌, ◌==◌, ==_iff, if◌then◌else◌, bit_and, arith,
}
use pglite_go.Base.Outcome.{Outcome, ok, err, panic, stuck, ◌>>=◌ as ◌>>=ᵒ◌}
use pglite_go.Base.Action.{Act, continue, ◌>>=◌, Ends, Ends-continue}
use pglite_go.Vfs.Path.{Text, rel_name}
use pglite_go.Vfs.Memory.{
  Memory, is_regular, new_node, regular, place_new, has_flag, o_trunc, o_creat, size,
}
use pglite_go.Vfs.Overlay.{Lower, Ref, upper, synth, node_of, in_upper, look, copy_up}
use pglite_go.Vfs.System.{Handle, OpenFile, Fds, Fs, fd_get, fd_erase, fd_set, back, on_mem, new_fd}
use pglite_go.Vfs.Paths.{
  at_cwd, clear_bytes, open_found, open_node, open_at, open_as, open_lower_handle, handle_step,
  handle_for, o_access,
}
use pglite_go.Vfs.Descriptors.{dup}

fd_get-erase_ne :
    (k fd : ℕ) (fds : Fds) → (fd == k) ≡ false → fd_get k (fd_erase fd fds) ≡ fd_get k fds
unfolding fd_get fd_erase
fd_get-erase_ne k fd [] h = refl
fd_get-erase_ne k fd ((j, f) ∷ fds) h = elim (Bool-cases (j == fd)) [
  | inl same ↦
      let j_k : (j == k) ≡ false = subst (λ t. (t == k) ≡ false) (sym ((==_iff j fd).0 same)) h in
      rw (same, j_k) (fd_get-erase_ne k fd fds h)
  | inr other ↦ rw other (ap (λ o. if j == k then some f else o) (fd_get-erase_ne k fd fds h))
]

fd_get-set_self : (fd : ℕ) (f : OpenFile) (fds : Fds) → fd_get fd (fd_set fd f fds) ≡ some f
unfolding fd_get fd_set
fd_get-set_self fd f fds = ground arith

fd_get-set_ne :
    (k fd : ℕ) (f : OpenFile) (fds : Fds) → k ≢ fd → fd_get k (fd_set fd f fds) ≡ fd_get k fds
unfolding fd_get fd_set
fd_get-set_ne k fd f fds h =
    let apart : (fd == k) ≡ false = ground (arith, h) in rw apart (fd_get-erase_ne k fd fds apart)

-- Nothing but the nodes is different.
abbrev pub SameTable : Fs → Fs → Type 0
SameTable v w = (w.fds ≡ v.fds) × (w.next_fd ≡ v.next_fd) × (w.cwd ≡ v.cwd)

-- The new descriptor is the next one, no other has changed, and the file at it is as `P` says.
abbrev pub NewFd : Fs → (OpenFile → Type 0) → ℕ → Fs → Type 0
NewFd v P fd w =
    (fd ≡ v.next_fd)
    × (w.next_fd ≡ (v.next_fd + 1) % 2 ^ 32)
    × ((of : OpenFile) × (fd_get fd w.fds ≡ some of) × P of)
    × ((k : ℕ) → k ≢ fd → fd_get k w.fds ≡ fd_get k v.fds)
    × (w.cwd ≡ v.cwd)

new_fd-NewFd :
    (v u : Fs) (f : OpenFile) (P : OpenFile → Type 0)
    → SameTable v u
    → P f
    → Ends (SameTable v) (NewFd v P) (new_fd f u)
unfolding new_fd
new_fd-NewFd v u f P (fds, next, cwd) p = (
  next,
  ap (λ n. (n + 1) % 2 ^ 32) next,
  (f, fd_get-set_self u.next_fd f u.fds, p),
  λ k apart. fd_get-set_ne k u.next_fd f u.fds apart ∙ ap (λ t. fd_get k t) fds,
  cwd,
)

on_mem-SameTable :
    {A : Type 0} (v u : Fs) (r : Outcome A × Memory)
    → SameTable v u
    → Ends (SameTable v) (λ a w. SameTable v w) (back r u)
on_mem-SameTable v u (ok a, m) s = s
on_mem-SameTable v u (err e, m) s = s
on_mem-SameTable v u (panic, m) s = s
on_mem-SameTable v u (stuck, m) s = s

module _ (lower : Option Lower) where
  -- A step on the nodes, and what follows it.
  then_SameTable :
      {A B : Type 0} (v u : Fs) (a : Act Memory A) (f : A → Act Fs B)
      → SameTable v u
      → ((x : A) (w : Fs) → SameTable v w → Ends (SameTable v) (λ b s. SameTable v s) (f x w))
      → Ends (SameTable v) (λ b s. SameTable v s) (continue (on_mem a u) f)
  then_SameTable v u a f s next =
      Ends-continue (λ b r. SameTable v r) (on_mem a u) f (λ r t. t) next
        (on_mem-SameTable v u (a u.mem) s)

  open_found-SameTable :
      (v u : Fs) (flags : ℕ) (r : Ref) (abs : Text)
      → SameTable v u
      → Ends (SameTable v) (λ a w. SameTable v w) (open_found lower flags r abs u)
  open_found-SameTable v u flags r abs s =
      elim (Bool-cases (is_regular (node_of r u.mem).type && has_flag flags o_trunc)) [
        | inl cut ↦
            let all =
              then_SameTable v u (copy_up lower abs r true)
                (λ n. clear_bytes lower n >>= λ q w. (ok (q, abs), w)) s (λ n w t. t) in
            rw cut all
        | inr kept ↦
            elim (Bool-cases (has_flag flags o_access && is_regular (node_of r u.mem).type)) [
              | inl written ↦
                  let all =
                    then_SameTable v u (copy_up lower abs r false) (λ n w. (ok (upper n, abs), w)) s
                      (λ n w t. t) in
                  rw (kept, written) all
              | inr looked ↦ rw (kept, looked) s
            ]
      ]

  open_node-SameTable :
      (v : Fs) (abs : Text) (flags mode : ℕ) (o : Option (Ref × Text))
      → Ends (SameTable v) (λ a w. SameTable v w) (open_node lower abs flags mode o v)
  open_node-SameTable v abs flags mode (some (r, resolved)) =
      open_found-SameTable v v flags r resolved (refl, refl, refl)
  open_node-SameTable v abs flags mode none = elim (Bool-cases (bit_and flags o_creat == 0)) [
    | inl plain ↦ rw plain (refl, refl, refl)
    | inr create ↦
        let all =
          then_SameTable v v (place_new (rel_name abs) (new_node regular mode))
            (λ n w. (ok (upper n, abs), w)) (refl, refl, refl) (λ n w t. t) in
        rw create all
  ]

  handle_step-SameTable :
      (v u : Fs) (o : Option ℕ) (r : Ref) (abs : Text)
      → SameTable v u
      → Ends (SameTable v) (λ a w. SameTable v w) (handle_step lower o r abs u)
  handle_step-SameTable v u (some k) (upper n) abs s = s
  handle_step-SameTable v u (some k) (synth i) abs s = s
  handle_step-SameTable v u none r abs s =
      opened (open_lower_handle lower abs (size (node_of r u.mem)))
    where
      opened :
          (o : Outcome Handle)
          → Ends {A = Option Handle × Ref}
              (SameTable v)
              (λ a w. SameTable v w)
              ((o >>=ᵒ λ h. ok (some h, r)), u)
      opened (ok h) = s
      opened (err e) = s
      opened panic = s
      opened stuck = s

  handle_for-SameTable :
      (v u : Fs) (r : Ref) (abs : Text)
      → SameTable v u
      → Ends (SameTable v) (λ a w. SameTable v w) (handle_for lower r abs u)
  handle_for-SameTable v u r abs s = elim (Bool-cases (is_regular (node_of r u.mem).type)) [
    | inl file ↦ rw file (handle_step-SameTable v u (in_upper abs u.mem) r abs s)
    | inr other ↦ rw other s
  ]

  -- Where Open succeeds, it returns the number that nextFD held and advances nextFD as an int32;
  -- the number then stands for a file with the flags of the call, every other number for what it
  -- stood for before, and the working directory is the same; where Open fails, the table, nextFD
  -- and the working directory are unchanged.
  pub open_at-NewFd :
      (p : Text) (flags mode : ℕ) (v : Fs)
      → Ends (SameTable v) (NewFd v (λ of. of.flags ≡ flags)) (open_at lower p flags mode v)
  unfolding open_at
  open_at-NewFd p flags mode v =
      let found = look lower v.mem true (at_cwd v p) in
      let Good = NewFd v (λ of. of.flags ≡ flags) in
      Ends-continue Good (open_node lower (at_cwd v p) flags mode found v)
        (λ f. handle_for lower f.0 f.1 >>= λ h. open_as lower flags f.1 h.0 h.1) (λ w t. t)
        (λ f w t.
          Ends-continue Good (handle_for lower f.0 f.1 w) (λ h. open_as lower flags f.1 h.0 h.1)
            (λ u t'. t') (λ h u t'. new_fd-NewFd v u _ (λ of. of.flags ≡ flags) t' refl)
            (handle_for-SameTable v w f.0 f.1 t))
        (open_node-SameTable v (at_cwd v p) flags mode found)

-- Dup of an open descriptor succeeds and returns the number that nextFD held, which then stands
-- for a file with the same handle, node, offset, flags and path, and every other number stands for
-- what it stood for before; nextFD is advanced as an int32, and the nodes and the working
-- directory are the same.
pub dup-NewFd :
    (fd : ℕ) (of : OpenFile) (v : Fs)
    → fd_get fd v.fds ≡ some of
    → (w : Fs) × (dup fd v ≡ (ok v.next_fd, w))
      × NewFd v (λ f. f ≡ of) v.next_fd w
      × (w.mem ≡ v.mem)
unfolding dup new_fd
dup-NewFd fd of v h =
    let new : NewFd v (λ f. f ≡ of) v.next_fd (new_fd of v).1 =
      new_fd-NewFd v v of (λ f. f ≡ of) (refl, refl, refl) refl in
    ((new_fd of v).1, rw h refl, new, refl)
