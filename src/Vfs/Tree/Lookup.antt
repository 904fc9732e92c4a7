-- ===== src/Vfs/Tree/Lookup.antt =====
-- What the lookup of vfs/vfs.go makes up for the lower layer has no children.
use pglite_go.Base.{
  ℕ, zero, suc, ◌≡◌, refl, Bool, true, not, ◌&&◌, ◌||◌, Bool-cases, inl, inr, Option, none, some,
  List, [], ◌∷◌, ◌++◌, bytes_eq,
}
use pglite_go.Vfs.Path.{Text, clean, split_slash, trim_prefix, is_empty}
use pglite_go.Vfs.Memory.{Memory, is_symlink}
use pglite_go.Vfs.Overlay.{
  Lower, Info, Ref, upper, synth, node_of, in_upper, upper_whiteout, lower_info, from_lower,
  synth_node, stat_found, stat_node, eval_part, eval_loop, eval_end, with_path, eval, look,
  link_target, is_nil,
}

abbrev pub Plain : Ref → Type 0
Plain (upper n) = Unit {0}
Plain (synth i) = i.children ≡ []

abbrev Found : Option Ref → Type 0
Found none = Unit {0}
Found (some r) = Plain r

abbrev pub FoundAt : Option (Ref × Text) → Type 0
FoundAt none = Unit {0}
FoundAt (some (r, t)) = Plain r

abbrev FoundLoop : Option (Option Ref × Text) → Type 0
FoundLoop none = Unit {0}
FoundLoop (some (o, t)) = Found o

module _ (lower : Option Lower) where
  synth_node-Plain : (abs : Text) (info : Info) → (synth_node lower abs info).children ≡ []
  unfolding synth_node
  synth_node-Plain abs info = elim (Bool-cases info.symlink_bit) [
    | inl l ↦ rw l refl
    | inr f ↦ elim (Bool-cases info.dir_bit) [ inl d ↦ rw (f, d) refl | inr r ↦ rw (f, r) refl ]
  ]

  from_lower-Found : (abs : Text) (o : Option Info) → Found (from_lower lower abs o)
  from_lower-Found abs none = tt
  from_lower-Found abs (some info) = synth_node-Plain abs info

  stat_found-Found : (abs : Text) (o : Option ℕ) (m : Memory) → Found (stat_found lower abs o m)
  stat_found-Found abs (some n) m = tt
  stat_found-Found abs none m = elim (Bool-cases (upper_whiteout abs m)) [
    | inl white ↦ rw white tt
    | inr other ↦ rw other (from_lower-Found abs (lower_info lower abs))
  ]

  stat_node-Found : (abs : Text) (m : Memory) → Found (stat_node lower abs m)
  unfolding stat_node
  stat_node-Found abs m = stat_found-Found abs (in_upper abs m) m

  with_path-Found : (abs : Text) (o : Option Ref) → Found o → FoundAt (with_path lower abs o)
  with_path-Found abs none f = tt
  with_path-Found abs (some r) f = f

  eval_part-Found :
      (ev : Text → Option (Ref × Text)) (m : Memory) (follow : Bool) (cur next : Text)
      (o : Option Ref)
      → ((t : Text) → FoundAt (ev t))
      → Found o
      → FoundAt (eval_part lower ev m follow cur next o)
  eval_part-Found ev m follow cur next none h f = tt
  eval_part-Found ev m follow cur next (some r) h f =
      elim (Bool-cases (is_symlink (node_of r m).type && follow)) [
        | inl l ↦ rw l (h (link_target lower cur (node_of r m).target))
        | inr p ↦ rw p f
      ]

  eval_loop-Found :
      (ev : Text → Option (Ref × Text)) (m : Memory) (follow : Bool) (parts : List Text)
      (cur : Text) (o : Option Ref)
      → ((t : Text) → FoundAt (ev t))
      → Found o
      → FoundLoop (eval_loop lower ev m follow parts cur o)
  unfolding eval_loop
  eval_loop-Found ev m follow [] cur o h f = f
  eval_loop-Found ev m follow (part ∷ parts) cur o h f = elim (Bool-cases (is_empty part)) [
    | inl skip ↦ rw skip (eval_loop-Found ev m follow parts cur o h f)
    | inr step ↦
        let next = cur ++ (b'/' ∷ part) in
        let at =
          eval_part lower ev m (follow || not (is_nil parts)) cur next (stat_node lower next m) in
        let ih : (r : Ref) (t : Text)
            → Plain r
            → FoundLoop (eval_loop lower ev m follow parts t (some r)) =
          λ r t f'. eval_loop-Found ev m follow parts t (some r) h f' in
        let all = go at ih (
          eval_part-Found ev m (follow || not (is_nil parts)) cur next (stat_node lower next m) h
            (stat_node-Found next m)) in
        rw step all
  ]
    where
      go :
          (q : Option (Ref × Text))
          → ((r : Ref) (t : Text)
              → Plain r
              → FoundLoop (eval_loop lower ev m follow parts t (some r)))
          → FoundAt q
          → FoundLoop
              (elim q [ none ↦ none | some r ↦ eval_loop lower ev m follow parts r.1 (some r.0) ])
      go none ih f' = tt
      go (some (r, t)) ih f' = ih r t f'

  eval_end-Found :
      (m : Memory) (o : Option (Option Ref × Text)) → FoundLoop o → FoundAt (eval_end lower m o)
  eval_end-Found m none f = tt
  eval_end-Found m (some (some r, cur)) f = f
  eval_end-Found m (some (none, cur)) f =
      with_path-Found (b'/' ∷ []) (stat_node lower (b'/' ∷ []) m) (stat_node-Found (b'/' ∷ []) m)

  eval-Found :
      (fuel : ℕ) (m : Memory) (follow : Bool) (p : Text) → FoundAt (eval lower fuel m follow p)
  unfolding eval
  eval-Found zero m follow p = tt
  eval-Found (suc fuel) m follow p = elim (Bool-cases (bytes_eq (clean p) (b'/' ∷ []))) [
    | inl top ↦
        rw top
          (with_path-Found (clean p) (stat_node lower (clean p) m) (stat_node-Found (clean p) m))
    | inr deep ↦
        let all =
          eval_end-Found m
            (eval_loop lower (eval lower fuel m true) m follow (split_slash (trim_prefix (clean p)))
              [] none)
            (eval_loop-Found (eval lower fuel m true) m follow (split_slash (trim_prefix (clean p)))
              [] none (eval-Found fuel m true) tt) in
        rw deep all
  ]

  pub look-Found : (m : Memory) (follow : Bool) (abs : Text) → FoundAt (look lower m follow abs)
  look-Found m follow abs = eval-Found 41 m follow abs
