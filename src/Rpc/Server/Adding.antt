-- ===== src/Rpc/Server/Adding.antt =====
-- rpc/base/rpc_server.go: the answers that a part of the run of a request adds.
use mqant.Prelude.{
  ℕ, length, ◌+◌, ◌≤◌, Bool, true, false, if◌then◌else◌, Option, none, some, List, [], ◌∷◌, ◌++◌,
  append-nil, Bytes, ◌≡◌, refl, sym, ap, ◌∙◌, subst, arith,
}
use mqant.Rpc.Args.{null_type}
use mqant.Rpc.Server.{
  RpcInfo, CallError, ResultInfo, new_result_info, Listener, Event, called_back, handled, logged,
  on_error, RpcServer, emit, also, out, do_callback, error_callback,
}
use mqant.Rpc.Server.Answering.{replies, replies-append}

-- All answers have the correlation id.
abbrev pub AllOf : Bytes → List ResultInfo → Type 0
AllOf cid [] = Unit
AllOf cid (r ∷ rs) = (r.cid ≡ cid) × AllOf cid rs

AllOf-append :
    (cid : Bytes) (xs ys : List ResultInfo) → AllOf cid xs → AllOf cid ys → AllOf cid (xs ++ ys)
AllOf-append cid [] ys a b = b
AllOf-append cid (x ∷ xs) ys a b = (a.0, AllOf-append cid xs ys a.1 b)

length_append : {A : Type 0} (xs ys : List A) → length (xs ++ ys) ≡ length xs + length ys
length_append [] ys = omega arith
length_append (x ∷ xs) ys = omega (arith, length_append xs ys)

append_assoc : {A : Type 0} (xs ys zs : List A) → (xs ++ ys) ++ zs ≡ xs ++ (ys ++ zs)
append_assoc [] ys zs = refl
append_assoc (x ∷ xs) ys zs = ap (λ l. x ∷ l) (append_assoc xs ys zs)

module _ {I V : Type 0} (info : RpcInfo) where
  -- From m to k answers with the correlation id of the request were given to `Callback`.
  pub record Adds (m k : ℕ) (s s' : RpcServer I V) : Type 0 where
    pub added : List ResultInfo
    pub replied : replies s'.events ≡ replies s.events ++ added
    pub of_cid : AllOf info.cid added
    pub at_least : m ≤ length added
    pub at_most : length added ≤ k

  pub Adds-quiet :
      {m k : ℕ} (s s' s'' : RpcServer I V)
      → replies s''.events ≡ replies s'.events
      → Adds m k s s'
      → Adds m k s s''
  Adds-quiet s s' s'' e x = record {
    added = x.added;
    replied = e ∙ x.replied;
    of_cid = x.of_cid;
    at_least = x.at_least;
    at_most = x.at_most;
  }

  pub Adds-from :
      {m k : ℕ} (s s1 s' : RpcServer I V)
      → replies s1.events ≡ replies s.events
      → Adds m k s1 s'
      → Adds m k s s'
  Adds-from s s1 s' e x = record {
    added = x.added;
    replied = x.replied ∙ ap (λ l. l ++ x.added) e;
    of_cid = x.of_cid;
    at_least = x.at_least;
    at_most = x.at_most;
  }

  pub Adds-then :
      {m k m' k' : ℕ} (s s1 s' : RpcServer I V)
      → Adds m k s s1
      → Adds m' k' s1 s'
      → Adds (m + m') (k + k') s s'
  Adds-then s s1 s' x y = record {
    added = x.added ++ y.added;
    replied =
        y.replied
        ∙ ap (λ l. l ++ y.added) x.replied
        ∙ append_assoc (replies s.events) x.added y.added;
    of_cid = AllOf-append info.cid x.added y.added x.of_cid y.of_cid;
    at_least = omega (arith, length_append x.added y.added, x.at_least, y.at_least);
    at_most = omega (arith, length_append x.added y.added, x.at_most, y.at_most);
  }

  pub Adds-le :
      {m k : ℕ} (m' k' : ℕ) (s s' : RpcServer I V)
      → m' ≤ m
      → k ≤ k'
      → Adds m k s s'
      → Adds m' k' s s'
  Adds-le m' k' s s' a b x = record {
    added = x.added;
    replied = x.replied;
    of_cid = x.of_cid;
    at_least = omega (arith, a, x.at_least);
    at_most = omega (arith, b, x.at_most);
  }

  pub Adds-none : (s : RpcServer I V) → Adds 0 1 s s
  Adds-none s = record {
    added = [];
    replied = sym (append-nil (replies s.events));
    of_cid = tt;
    at_least = omega arith;
    at_most = omega arith;
  }

  pub emit-replies :
      (e : Event) (s : RpcServer I V)
      → replies (e ∷ []) ≡ []
      → replies (emit e s).events ≡ replies s.events
  emit-replies e s q =
      replies-append s.events e ∙ ap (λ l. replies s.events ++ l) q ∙ append-nil (replies s.events)

  module _ (heard : Event → Option Bytes) (wants : info.reply ≡ true) where
    -- The handler and the listener add no answer.
    also-Adds :
        {m k : ℕ} (s : RpcServer I V) (x : Option Bytes × RpcServer I V)
        (next : RpcServer I V → Option Bytes × RpcServer I V)
        → ((s' : RpcServer I V) → replies (next s').1.events ≡ replies s'.events)
        → Adds m k s x.1
        → Adds m k s (also x next).1
    also-Adds s (none, s') next h x = Adds-quiet s s' (next s').1 (h s') x
    also-Adds s (some t, s') next h x = x

    handler-quiet :
        (r : ResultInfo) (b : Bool) (s : RpcServer I V)
        → replies (if b then out heard (handled r) s else (none, s)).1.events ≡ replies s.events
    handler-quiet r true s = emit-replies (handled r) s refl
    handler-quiet r false s = refl

    listener-quiet :
        (e : Event) (o : Option (Listener I V)) (s : RpcServer I V)
        → replies (e ∷ []) ≡ []
        → replies
            (elim o as (λ k. Option Bytes × RpcServer I V) [
              | none ↦ (none, s)
              | some l ↦ out heard e s
            ]).1.events
          ≡ replies s.events
    listener-quiet e none s q = refl
    listener-quiet e (some l) s q = emit-replies e s q

    called-Adds :
        (r : ResultInfo) (s : RpcServer I V)
        → r.cid ≡ info.cid
        → Adds 1 1 s (emit (called_back r) s)
    called-Adds r s e = record {
      added = r ∷ [];
      replied = replies-append s.events (called_back r);
      of_cid = (e, tt);
      at_least = omega arith;
      at_most = omega arith;
    }

    do_callback-Adds :
        (r : ResultInfo) (s : RpcServer I V)
        → r.cid ≡ info.cid
        → Adds 1 1 s (do_callback heard info r s).1
    unfolding do_callback
    do_callback-Adds r s e =
        let quiet : RpcServer I V = elim r.error as (λ k. RpcServer I V) [
          | none ↦ s
          | some x ↦ emit (logged info.fn) s
        ] in
        let next : RpcServer I V → Option Bytes × RpcServer I V =
          λ s'. if s'.has_rpc_handler then out heard (handled r) s' else (none, s') in
        subst (λ x. Adds 1 1 s x.1)
          (sym
            (ap (λ b. also (if b then out heard (called_back r) s else (none, quiet)) next) wants))
          (also-Adds s (out heard (called_back r) s) next
            (λ s'. handler-quiet r s'.has_rpc_handler s') (called-Adds r s e))

    pub answer-Adds :
        (r : ResultInfo) (e : Event) (s : RpcServer I V)
        → r.cid ≡ info.cid
        → replies (e ∷ []) ≡ []
        → Adds 1 1 s
            (also (do_callback heard info r s) (λ s'.
              elim s'.listener as (λ k. Option Bytes × RpcServer I V) [
                | none ↦ (none, s')
                | some l ↦ out heard e s'
              ])).1
    answer-Adds r e s c q =
        also-Adds s (do_callback heard info r s) _ (λ s'. listener-quiet e s'.listener s' q)
          (do_callback-Adds r s c)

    pub error_callback-Adds :
        (x : CallError) (s : RpcServer I V) → Adds 1 1 s (error_callback heard info x s).1
    unfolding error_callback new_result_info
    error_callback-Adds x s =
        answer-Adds (new_result_info info.cid (some x) null_type []) (on_error info.fn) s refl refl
