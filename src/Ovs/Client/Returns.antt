-- ===== src/Ovs/Client/Returns.antt =====
-- `DeletePort` of pkg/ovs/client.go ends without a run-time panic, if the OVSDB library does.
use dra_driver_ovsdpdk_upstr.Base.{
  String, ◌≢◌, inl, inr, Bool, true, false, Option, none, some, List, [], ◌∷◌, panic, Error,
  err_port_not_found, fail, ◌==◌, Result-cases,
}
use dra_driver_ovsdpdk_upstr.Base.NoPanic.{NoPanic, bind-NoPanic}
use dra_driver_ovsdpdk_upstr.Ovs.Client.{
  OvsdbClient, Mutator, delete, checked, find_port_uuid, delete_found, delete_port,
}

-- The calls of `DeletePort` to the library end without a panic.
pub record Returns {D Op Res : Type 0} (client : OvsdbClient D Op Res) : Type 0 where
  pub select_port_named : (name : String) → client.select_port_named name ≢ panic
  pub transact : (ops : List Op) → NoPanic (client.transact ops)
  pub select_results :
      (ops : List Op) (results : List Res) → client.select_results ops results ≢ panic
  pub mutate_ports :
      (bridge : String) (how : Mutator) (uuids : List String)
      → client.mutate_ports bridge how uuids ≢ panic

checked-ne-panic : (text : String) (o : Option (List Error)) → checked text o ≢ panic
unfolding checked
checked-ne-panic text none e = cc
checked-ne-panic text (some errs) e = cc

module _ {D Op Res : Type 0} (client : OvsdbClient D Op Res) (returns : Returns client) where
  find_port_uuid-NoPanic : (name : String) → NoPanic (find_port_uuid client name)
  unfolding find_port_uuid
  find_port_uuid-NoPanic name s = elim (Result-cases (client.select_port_named name)) [
    | inr (inl (x, es)) ↦ rw (es, find_port_uuid) (λ e. cc e)
    | inr (inr es) ↦ absurd (returns.select_port_named name es)
    | inl (ops, es) ↦ elim (Result-cases (client.transact ops s).0) [
      | inr (inl (x, et)) ↦ rw (es, et, find_port_uuid) (λ e. cc e)
      | inr (inr et) ↦ absurd (returns.transact ops s et)
      | inl (rs, et) ↦ elim (Result-cases (client.select_results ops rs)) [
        | inl (ports, ep) ↦ rw (es, et, ep, find_port_uuid) (λ e. cc e)
        | inr (inl (x, ep)) ↦ rw (es, et, ep, find_port_uuid) (λ e. cc e)
        | inr (inr ep) ↦ absurd (returns.select_results ops rs ep)
      ]
    ]
  ]

  delete_found-NoPanic : (bridge uuid : String) → NoPanic (delete_found client bridge uuid)
  unfolding delete_found
  delete_found-NoPanic bridge uuid s =
      elim (Result-cases (client.mutate_ports bridge delete (uuid ∷ []))) [
        | inr (inl (x, em)) ↦ rw (em, delete_found) (λ e. cc e)
        | inr (inr em) ↦ absurd (returns.mutate_ports bridge delete (uuid ∷ []) em)
        | inl (ops, em) ↦ elim (Result-cases (client.transact ops s).0) [
          | inr (inl (x, et)) ↦ rw (em, et, delete_found) (λ e. cc e)
          | inr (inr et) ↦ absurd (returns.transact ops s et)
          | inl (rs, et) ↦
              rw (em, et, delete_found) (checked-ne-panic _ (client.operation_errors rs ops))
        ]
      ]

  found-NoPanic :
      (bridge uuid : String) (missing : Bool)
      → NoPanic (elim missing [
        | true ↦ fail err_port_not_found
        | false ↦ delete_found client bridge uuid
      ])
  found-NoPanic bridge uuid true s = λ e. cc e
  found-NoPanic bridge uuid false s = delete_found-NoPanic bridge uuid s

  pub delete_port-NoPanic : (bridge name : String) → NoPanic (delete_port client bridge name)
  unfolding delete_port
  delete_port-NoPanic bridge name =
      bind-NoPanic (find_port_uuid client name)
        (λ uuid. elim (uuid == "") [
          | true ↦ fail err_port_not_found
          | false ↦ delete_found client bridge uuid
        ])
        (find_port_uuid-NoPanic name) (λ uuid. found-NoPanic bridge uuid (uuid == ""))
