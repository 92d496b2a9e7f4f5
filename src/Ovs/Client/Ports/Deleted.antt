-- ===== src/Ovs/Client/Ports/Deleted.antt =====
-- Which ports there are on the bridges after `DeletePort` of pkg/ovs/client.go.
use dra_driver_ovsdpdk_upstr.Base.{
  String, ◌≡◌, refl, sym, ap, subst, ◌∙◌, inl, inr, Bool, true, false, Option, none, some, List, [],
  ◌∷◌, ok, err, Error, Exec, wrap, and_then, join_errors, wrapping, lift, ◌>>=◌, Result-cases,
  Bool-cases, ◌==◌, eq_iff,
}
use dra_driver_ovsdpdk_upstr.Backend.{is_deleted}
use dra_driver_ovsdpdk_upstr.Ovs.Client.{
  OvsdbClient, delete, checked, first_uuid, find_port_uuid, delete_found, delete_port,
}
use dra_driver_ovsdpdk_upstr.Ovs.Client.Ports.{committed, OvsdbRuns}

checked-deleted :
    (text : String) (o : Option (List Error)) → is_deleted (checked text o) ≡ true → o ≡ none
unfolding checked join_errors
checked-deleted text none h = refl
checked-deleted text (some []) h = cc
checked-deleted text (some (e ∷ es)) h = cc

module _ {D Op Res : Type 0} (client : OvsdbClient D Op Res) {has : D → String → String → Bool}
    {uuid_of : D → String → String} (runs : OvsdbRuns client has uuid_of) where
  -- What `findPortUUID` finds.
  find_port_uuid_lem :
      (n : String) (s : D)
      → (has (find_port_uuid client n s).1 ≡ has s)
        × (uuid_of (find_port_uuid client n s).1 ≡ uuid_of s)
  unfolding find_port_uuid
  find_port_uuid_lem n s = elim (Result-cases (client.select_port_named n)) [
    | inr (inl (x, es)) ↦ rw (es, find_port_uuid) (refl, refl)
    | inr (inr es) ↦ rw (es, find_port_uuid) (refl, refl)
    | inl (ops, es) ↦
        let kept = runs.select_keeps n ops s es in
        elim (Result-cases (client.transact ops s).0) [
          | inr (inl (x, et)) ↦ rw (es, et, find_port_uuid) kept
          | inr (inr et) ↦ rw (es, et, find_port_uuid) kept
          | inl (rs, et) ↦ elim (Result-cases (client.select_results ops rs)) [
            | inl (ports, ep) ↦ rw (es, et, ep, find_port_uuid) kept
            | inr (inl (x, ep)) ↦ rw (es, et, ep, find_port_uuid) kept
            | inr (inr ep) ↦ rw (es, et, ep, find_port_uuid) kept
          ]
        ]
  ]

  -- The transaction of `DeletePort`, and what comes after it.
  abbrev send_delete : List Op → Exec D (Unit {0})
  send_delete ops = wrapping "delete port transaction: %w" (client.transact ops) >>= λ results.
      lift (checked "delete port %q from bridge %q: %w" (client.operation_errors results ops))

  sent_world : (ops : List Op) (s : D) → (send_delete ops s).1 ≡ (client.transact ops s).1
  sent_world ops s = elim (Result-cases (client.transact ops s).0) [
    | inl (rs, e) ↦ rw e refl
    | inr (inl (x, e)) ↦ rw e refl
    | inr (inr e) ↦ rw e refl
  ]

  sent-committed :
      (ops : List Op) (s : D)
      → is_deleted (send_delete ops s).0 ≡ true
      → committed client (client.transact ops s).0 ops ≡ true
  sent-committed ops s h = elim (Result-cases (client.transact ops s).0) [
    | inl (rs, e) ↦
        rw
          (
            e,
            checked-deleted "delete port %q from bridge %q: %w" (client.operation_errors rs ops)
                (rw e at h),
            committed,
          )
          refl
    | inr (inl (x, e)) ↦ absurd (cc (rw e at h))
    | inr (inr e) ↦ absurd (cc (rw e at h))
  ]

  -- A port that is there after `DeletePort` was there before.
  pub delete_port_adds_none :
      (bridge port : String) (s : D) (br n : String)
      → has (delete_port client bridge port s).1 br n ≡ true
      → has s br n ≡ true
  unfolding delete_port delete_found
  delete_port_adds_none bridge port s br n h =
      let found = find_port_uuid client port s in
      let kept : has found.1 ≡ has s = (find_port_uuid_lem port s).0 in
      let back = λ (k : has found.1 br n ≡ true). subst (λ f. f br n ≡ true) kept k in
      elim (Result-cases found.0) [
        | inr (inl (x, e)) ↦ back (rw (e, delete_port) at h)
        | inr (inr e) ↦ back (rw (e, delete_port) at h)
        | inl (uuid, e) ↦
            let later = rw (e, delete_port) at h in
            elim (Bool-cases (uuid == "")) [
              | inl none_found ↦ back (rw (none_found, and_then) at later)
              | inr there ↦ elim (Result-cases (client.mutate_ports bridge delete (uuid ∷ []))) [
                | inr (inl (x, em)) ↦ back (rw (there, em, and_then, delete_found) at later)
                | inr (inr em) ↦ back (rw (there, em, and_then, delete_found) at later)
                | inl (ops, em) ↦
                    let sent = rw (there, em, and_then, delete_found) at later in
                    back (
                      runs.delete_adds_none bridge uuid ops found.1 br n em
                        (subst (λ x. has x br n ≡ true) (sent_world ops found.1) sent))
              ]
            ]
      ]

  found_uuid :
      (n : String) (s : D) (uuid : String)
      → (find_port_uuid client n s).0 ≡ ok uuid
      → uuid ≡ uuid_of s n
  unfolding find_port_uuid
  found_uuid n s uuid h = elim (Result-cases (client.select_port_named n)) [
    | inr (inl (x, es)) ↦ absurd (cc (rw (es, find_port_uuid) at h))
    | inr (inr es) ↦ absurd (cc (rw (es, find_port_uuid) at h))
    | inl (ops, es) ↦ elim (Result-cases (client.transact ops s).0) [
      | inr (inl (x, et)) ↦ absurd (cc (rw (es, et, find_port_uuid) at h))
      | inr (inr et) ↦ absurd (cc (rw (es, et, find_port_uuid) at h))
      | inl (rs, et) ↦ elim (Result-cases (client.select_results ops rs)) [
        | inr (inl (x, ep)) ↦ absurd (cc (rw (es, et, ep, find_port_uuid) at h))
        | inr (inr ep) ↦ absurd (cc (rw (es, et, ep, find_port_uuid) at h))
        | inl (ports, ep) ↦
            let it : first_uuid ports ≡ uuid = cc (rw (es, et, ep, find_port_uuid) at h) in
            sym it ∙ runs.selected n ops rs ports s es et ep
      ]
    ]
  ]

  -- An error of a query is not the one that `DeletePort` returns where there is no port.
  find_err :
      (n : String) (s : D) (x : Error)
      → (find_port_uuid client n s).0 ≡ err x
      → is_deleted (err x) ≡ false
  unfolding find_port_uuid
  find_err n s x h =
      let other = λ (text : String) (e : Error) (it : wrap text e ≡ x).
        subst (λ z. is_deleted (err z) ≡ false) it refl in
      elim (Result-cases (client.select_port_named n)) [
        | inr (inl (e, es)) ↦
            other "build select for port %q: %w" e (cc (rw (es, find_port_uuid) at h))
        | inr (inr es) ↦ absurd (cc (rw (es, find_port_uuid) at h))
        | inl (ops, es) ↦ elim (Result-cases (client.transact ops s).0) [
          | inr (inl (e, et)) ↦ other "select port %q: %w" e (cc (rw (es, et, find_port_uuid) at h))
          | inr (inr et) ↦ absurd (cc (rw (es, et, find_port_uuid) at h))
          | inl (rs, et) ↦ elim (Result-cases (client.select_results ops rs)) [
            | inr (inl (e, ep)) ↦
                other "parse select results for port %q: %w" e
                  (cc (rw (es, et, ep, find_port_uuid) at h))
            | inr (inr ep) ↦ absurd (cc (rw (es, et, ep, find_port_uuid) at h))
            | inl (ports, ep) ↦ absurd (cc (rw (es, et, ep, find_port_uuid) at h))
          ]
        ]
      ]

  -- A port that `DeletePort` deleted, or did not find, is not there afterwards.
  pub delete_port_gone :
      (bridge port : String) (s : D)
      → is_deleted (delete_port client bridge port s).0 ≡ true
      → has (delete_port client bridge port s).1 bridge port ≡ false
  unfolding delete_port delete_found
  delete_port_gone bridge port s h =
      let found = find_port_uuid client port s in
      let (kept, uuids) = find_port_uuid_lem port s in
      elim (Result-cases found.0) [
        | inr (inl (x, e)) ↦ absurd (cc (find_err port s x e, rw (e, delete_port) at h))
        | inr (inr e) ↦ absurd (cc (rw (e, delete_port) at h))
        | inl (uuid, e) ↦
            let its = found_uuid port s uuid e in
            let later = rw (e, delete_port) at h in
            elim (Bool-cases (uuid == "")) [
              | inl none_found ↦
                  rw (e, delete_port, none_found, and_then)
                    (subst (λ f. f bridge port ≡ false) (sym kept)
                      (runs.absent s bridge port (sym its ∙ (eq_iff uuid "").0 none_found)))
              | inr there ↦ elim (Result-cases (client.mutate_ports bridge delete (uuid ∷ []))) [
                | inr (inl (x, em)) ↦ absurd (cc (rw (there, em, and_then, delete_found) at later))
                | inr (inr em) ↦ absurd (cc (rw (there, em, and_then, delete_found) at later))
                | inl (ops, em) ↦
                    let its' : uuid ≡ uuid_of found.1 port = its ∙ sym (ap (λ f. f port) uuids) in
                    let gone =
                      runs.delete_gone bridge port ops found.1
                        (subst (λ u. client.mutate_ports bridge delete (u ∷ []) ≡ ok ops) its' em)
                        (sent-committed ops found.1
                          (rw (there, em, and_then, delete_found) at later)) in
                    rw (e, delete_port, there, em, and_then, delete_found)
                      (subst (λ x. has x bridge port ≡ false) (sym (sent_world ops found.1)) gone)
              ]
            ]
      ]
