-- ===== src/Registry/Watcher/Events.antt =====
-- registry/consul_watcher.go: which instances the events take away.
use mqant.Prelude.{
  Bool, false, not, ◌&&◌, ◌||◌, if◌then◌else◌, some, Dict, find, has_key, List, [], ◌∷◌, ◌++◌,
  Bytes, same, same→eq, filter_out, any, ◌≡◌, refl, ap, arith, inl, inr, Bool-cases,
}
use mqant.Registry.{Node, Service}
use mqant.Registry.Watcher.{
  Event, create, update, delete, seen, gone_nodes, delete_nodes, old_events, all_new_events,
  lost_events, read_entries, service_handler, Decoders, Entry, new_events,
}

-- The service has the instance, under the name and the version.
abbrev pub carries : Bytes → Bytes → Bytes → Service → Bool
carries name version id s = same s.name name && (same s.version version && seen id s.nodes)

-- An event takes the instance away from those of the name and the version.
abbrev pub removes : Bytes → Bytes → Bytes → List Event → Bool
removes name version id [] = false
removes name version id (create s ∷ es) = removes name version id es
removes name version id (update s ∷ es) = removes name version id es
removes name version id (delete s ∷ es) = carries name version id s || removes name version id es

-- One of the services has the instance.
abbrev pub had : Bytes → Bytes → Bytes → List Service → Bool
had name version id olds = any (carries name version id) olds

seen-filter_out :
    (id : Bytes) (neu nodes : List Node)
    → seen id (filter_out (λ n. seen n.instance_id neu) nodes)
      ≡ (seen id nodes && not (seen id neu))
seen-filter_out id neu [] = refl
seen-filter_out id neu (n ∷ nodes) = elim (Bool-cases (same n.instance_id id)) [
  | inl e ↦ elim (Bool-cases (seen id neu)) [
    | inl f ↦ ground (
      arith,
      e,
      f,
      same→eq n.instance_id id e,
      ap (λ i. seen i neu) (same→eq n.instance_id id e),
      seen-filter_out id neu nodes,
    )
    | inr f ↦ ground (
      arith,
      e,
      f,
      same→eq n.instance_id id e,
      ap (λ i. seen i neu) (same→eq n.instance_id id e),
      seen-filter_out id neu nodes,
    )
  ]
  | inr e ↦ ground (arith, e, seen-filter_out id neu nodes)
]

module _ (name version id : Bytes) where
  removes-append :
      (es ds : List Event)
      → removes name version id (es ++ ds)
        ≡ (removes name version id es || removes name version id ds)
  removes-append [] ds = refl
  removes-append (create s ∷ es) ds = removes-append es ds
  removes-append (update s ∷ es) ds = removes-append es ds
  removes-append (delete s ∷ es) ds = ground (arith, removes-append es ds)

  delete_nodes-removes :
      (old : Service) (ns : List Node)
      → removes name version id (delete_nodes old ns)
        ≡ carries name version id (record old { nodes = ns })
  delete_nodes-removes old [] = ground arith
  delete_nodes-removes old (n ∷ ns) = ground arith

  -- An instance of the version of the new service that it does not have.
  abbrev pub leaves_service : List Service → Service → Bool
  leaves_service olds neu =
      same neu.version version && (had name version id olds && not (seen id neu.nodes))

  old_events-removes :
      (neu : Service) (olds : List Service)
      → removes name version id (old_events neu olds) ≡ leaves_service olds neu
  unfolding old_events
  old_events-removes neu [] = ground arith
  old_events-removes neu (old ∷ olds) = elim (Bool-cases (same old.version neu.version)) [
    | inl e ↦ ground (
      arith,
      e,
      ap (λ v. same v version) (same→eq old.version neu.version e),
      removes-append (delete_nodes old (gone_nodes neu old)) (old_events neu olds),
      delete_nodes-removes old (gone_nodes neu old),
      seen-filter_out id neu.nodes old.nodes,
      old_events-removes neu olds,
    )
    | inr e ↦ elim (Bool-cases (same neu.version version)) [
      | inl f ↦ ground (
        arith,
        e,
        f,
        ap (λ v. same old.version v) (same→eq neu.version version f),
        old_events-removes neu olds,
      )
      | inr f ↦ ground (arith, e, f, old_events-removes neu olds)
    ]
  ]

  new_events-removes :
      (neu : Service) (olds : List Service)
      → removes name version id (new_events (some olds) neu) ≡ leaves_service olds neu
  unfolding new_events
  new_events-removes neu olds = ground (
    arith,
    old_events-removes neu olds,
    removes-append (old_events neu olds)
        ((if any (λ old. same old.version neu.version) olds then update neu else create neu) ∷ []),
  )

  -- The version is in the new set, and it had the instance and has it no more.
  abbrev pub leaves : List Service → Dict Service → Bool
  leaves olds [] = false
  leaves olds ((v, neu) ∷ services) = leaves_service olds neu || leaves olds services

  -- The version is not in the new set, and it had the instance.
  abbrev pub lost : List Service → Dict Service → Bool
  lost [] services = false
  lost (old ∷ olds) services =
      (carries name version id old && not (has_key old.version services)) || lost olds services

  all_new_events-removes :
      (olds : List Service) (services : Dict Service)
      → removes name version id (all_new_events (some olds) services) ≡ leaves olds services
  unfolding all_new_events
  all_new_events-removes olds [] = refl
  all_new_events-removes olds ((v, neu) ∷ services) = ground (
    arith,
    new_events-removes neu olds,
    all_new_events-removes olds services,
    removes-append (new_events (some olds) neu) (all_new_events (some olds) services),
  )

  lost_events-removes :
      (olds : List Service) (services : Dict Service)
      → removes name version id (lost_events services olds) ≡ lost olds services
  unfolding lost_events
  lost_events-removes [] services = refl
  lost_events-removes (old ∷ olds) services = elim (Bool-cases (has_key old.version services)) [
    | inl e ↦ ground (arith, e, lost_events-removes olds services)
    | inr e ↦ ground (arith, e, lost_events-removes olds services)
  ]

  -- The events that follow from new entries of a service that was known take an instance away from
  -- a name and a version exactly if the service had it under both, and the version has it no more or
  -- is not there any more.
  pub service_handler-removes :
      (d : Decoders) (entries : List Entry) (known : Dict (List Service)) (olds : List Service)
      → find (read_entries d entries [] []).0 known ≡ some olds
      → removes name version id (service_handler d entries known).0 ≡ (
          leaves olds (read_entries d entries [] []).1
          || lost olds (read_entries d entries [] []).1)
  unfolding service_handler
  service_handler-removes d entries known olds e =
      let services = (read_entries d entries [] []).1 in
      ground (
        arith,
        e,
        removes-append (all_new_events (some olds) services) (lost_events services olds),
        all_new_events-removes olds services,
        lost_events-removes olds services,
      )
