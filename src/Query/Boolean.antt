-- ===== src/Query/Boolean.antt =====
-- src/query/query_eval.rs, `eval_boolean_op`: intersection and union of two filters of an index.
use mathlib.Core.List.{Perm}
use mathlib.Core.List.Perm
use mathlib.Core.Path.{fun_ext}
use outpack_server.Packet.{Packet, has_packet}
use outpack_server.Prelude.{
  All-imp, Bool, List, arith, false, if◌then◌else◌, keep, keep-append-perm, keep-perm, keep_cong,
  list_eq, nat_eq, not, subst, true, ◌&&◌, ◌++◌, ◌||◌, ◌≡◌,
}
use outpack_server.Query.Eval.{eval_boolean_op, eval_negation}
use outpack_server.Query.Sets.{
  Distinct, Distinct-perm, has_packet-keep, has_packet-perm, keep-Distinct, keep-has_packet,
  keep-lacks_packet, set_of-Distinct,
}
use outpack_server.Query.Types.{and, or}

module _ (index : List Packet) (distinct : Distinct index) where
  -- The list holds, in some order, the packets of the index that pass the test.
  abbrev pub Finds : List Packet → (Packet → Bool) → Type 0
  Finds ps f = Perm ps (keep f index)

  has_packet-Finds :
      {ps : List Packet} (f : Packet → Bool)
      → Finds ps f
      → has_packet ps ≡ has_packet (keep f index)
  has_packet-Finds f h = fun_ext (has_packet-perm h)

  Finds-Distinct : {ps : List Packet} (f : Packet → Bool) → Finds ps f → Distinct ps
  Finds-Distinct f h = Distinct-perm (Perm.symm h) (keep-Distinct f index distinct)

  module _ (f g : Packet → Bool) {a b : List Packet} (found_a : Finds a f)
      (found_b : Finds b g) where
    keep-Finds : Finds (keep (has_packet b) a) (λ p. f p && g p)
    keep-Finds =
        rw (has_packet-Finds g found_b)
          (Perm.trans (keep-perm _ found_a) (rw (keep-has_packet index distinct f g) (Perm.refl _)))

    append-Finds : Finds (a ++ keep (λ p. not (has_packet a p)) b) (λ p. f p || g p)
    append-Finds = rw (has_packet-Finds f found_a) (
        Perm.trans (Perm.append found_a (keep-perm _ found_b))
          (rw (keep-lacks_packet index distinct g f) (keep-append-perm f g index)))

  -- Either walk of a set operation will do.
  Finds-if :
      (f g : Packet → Bool) (t : Bool) {x y : List Packet}
      → Finds x f
      → Finds y g
      → ((p : Packet) → g p ≡ f p)
      → Finds (if t then x else y) f
  Finds-if f g true h k e = h
  Finds-if f g false {x} {y} h k e = subst (λ u. Finds y u) (fun_ext e) k

  module _ (f g : Packet → Bool) {a b : List Packet} (found_a : Finds a f)
      (found_b : Finds b g) where
    pub eval_boolean_op-and : Finds (eval_boolean_op and a b) (λ p. f p && g p)
    unfolding eval_boolean_op
    eval_boolean_op-and =
        rw
          (
            set_of-Distinct a (Finds-Distinct f found_a),
            set_of-Distinct b (Finds-Distinct g found_b),
          )
          (Finds-if _ _ _ (keep-Finds f g found_a found_b) (keep-Finds g f found_b found_a)
            (λ p. ground arith))

    pub eval_boolean_op-or : Finds (eval_boolean_op or a b) (λ p. f p || g p)
    unfolding eval_boolean_op
    eval_boolean_op-or =
        rw
          (
            set_of-Distinct a (Finds-Distinct f found_a),
            set_of-Distinct b (Finds-Distinct g found_b),
          )
          (Finds-if _ _ _ (append-Finds f g found_a found_b) (append-Finds g f found_b found_a)
            (λ p. ground arith))

  -- The packets of the index that are not among those found, in the order of the index.
  pub eval_negation-Finds :
      (f : Packet → Bool) {ps : List Packet}
      → Finds ps f
      → eval_negation index ps ≡ keep (λ p. not (f p)) index
  unfolding eval_negation
  eval_negation-Finds f h =
      rw (has_packet-Finds f h)
        (keep_cong _ _ index (All-imp (λ p e. rw e) index (has_packet-keep f index distinct)))
