-- ===== src/Ovs/Client/Ports.antt =====
-- Which ports there are on the bridges after `CreatePort` and `DeletePort` of pkg/ovs/client.go.
pub mod Deleted
use dra_driver_ovsdpdk_upstr.Base.{
  String, ◌≡◌, refl, sym, ap, subst, ◌∙◌, ◌⊎◌, inl, inr, Bool, true, false, Option, none, some,
  List, [], ◌∷◌, ◌++◌, Result, ok, err, panic, Error, Exec, wrap, and_then, is_err, join_errors,
  wrapping, lift, ◌>>=◌, Result-cases, Option-cases, Bool-cases, ◌==◌, eq_iff, arith,
}
use dra_driver_ovsdpdk_upstr.Backend.{is_deleted}
use dra_driver_ovsdpdk_upstr.Api.{OvsPortParams}
use dra_driver_ovsdpdk_upstr.Ovs.Client.{
  OvsdbClient, Interface, Port, insert, delete, checked, first_uuid, new_interface, new_port,
  create_port, find_port_uuid, delete_found, delete_port,
}

module _ {D Op Res : Type 0} (client : OvsdbClient D Op Res) where
  -- A transaction that the database rejected, and one that it carried out. Of one that returned an error
  -- it is not known.
  abbrev pub rejected : Result (List Res) → List Op → Bool
  rejected (ok rs) ops = elim (client.operation_errors rs ops) [ none ↦ false | some _ ↦ true ]
  rejected _ ops = false

  abbrev pub committed : Result (List Res) → List Op → Bool
  committed (ok rs) ops = elim (client.operation_errors rs ops) [ none ↦ true | some _ ↦ false ]
  committed _ ops = false

  -- The connection holds: every transaction is answered.
  abbrev pub Answers : Type 0
  Answers = (ops : List Op) (s : D) → is_err (client.transact ops s).0 ≡ false

  -- What the OVSDB promises: a transaction is carried out whole or, where it is rejected, not at all;
  -- a query changes nothing and finds the port of a name, whose UUID is `uuid_of`, "" where there is
  -- none; taking a port from a bridge adds none, and leaves it without the port.
  pub record OvsdbRuns (has : D → String → String → Bool) (uuid_of : D → String → String)
      : Type 0 where
    pub insert_port :
        (i : Interface) (p : Port) (bridge : String) (a b c : List Op) (s : D) (br n : String)
        → client.create_interface i ≡ ok a
        → client.create_port p ≡ ok b
        → client.mutate_ports bridge insert (p.uuid ∷ []) ≡ ok c
        → has (client.transact ((a ++ b) ++ c) s).1 br n ≡ true
        → (has s br n ≡ true)
          ⊎ ((bridge ≡ br)
              × (p.name ≡ n)
              × (rejected (client.transact ((a ++ b) ++ c) s).0 ((a ++ b) ++ c) ≡ false))
    pub select_keeps :
        (n : String) (ops : List Op) (s : D)
        → client.select_port_named n ≡ ok ops
        → (has (client.transact ops s).1 ≡ has s) × (uuid_of (client.transact ops s).1 ≡ uuid_of s)
    pub selected :
        (n : String) (ops : List Op) (rs : List Res) (ports : List Port) (s : D)
        → client.select_port_named n ≡ ok ops
        → (client.transact ops s).0 ≡ ok rs
        → client.select_results ops rs ≡ ok ports
        → first_uuid ports ≡ uuid_of s n
    pub absent : (s : D) (br n : String) → uuid_of s n ≡ "" → has s br n ≡ false
    pub delete_gone :
        (bridge n : String) (ops : List Op) (s : D)
        → client.mutate_ports bridge delete (uuid_of s n ∷ []) ≡ ok ops
        → committed (client.transact ops s).0 ops ≡ true
        → has (client.transact ops s).1 bridge n ≡ false
    pub delete_adds_none :
        (bridge uuid : String) (ops : List Op) (s : D) (br n : String)
        → client.mutate_ports bridge delete (uuid ∷ []) ≡ ok ops
        → has (client.transact ops s).1 br n ≡ true
        → has s br n ≡ true

  module _ {has : D → String → String → Bool} {uuid_of : D → String → String}
      (runs : OvsdbRuns has uuid_of) (answers : Answers) where
    -- A port that is there after `CreatePort` was there before, or is the one to be made, without an
    -- error.
    pub create_port_lem :
        (bridge port socket : String) (params : OvsPortParams) (s : D) (br n : String)
        → let t = create_port client bridge port socket params s in
          has t.1 br n ≡ true
          → (has s br n ≡ true) ⊎ ((bridge ≡ br) × (port ≡ n) × (is_err t.0 ≡ false))
    unfolding create_port checked
    create_port_lem bridge port socket params s br n h =
        let i = new_interface port socket params in
        let p = new_port port params in
        elim (Result-cases (client.create_interface i)) [
          | inr (inl (x, ea)) ↦ inl (rw (ea, create_port) at h)
          | inr (inr ea) ↦ inl (rw (ea, create_port) at h)
          | inl (a, ea) ↦ elim (Result-cases (client.create_port p)) [
            | inr (inl (x, eb)) ↦ inl (rw (ea, eb, create_port) at h)
            | inr (inr eb) ↦ inl (rw (ea, eb, create_port) at h)
            | inl (b, eb) ↦
                elim (Result-cases (client.mutate_ports bridge insert ("newport" ∷ []))) [
                  | inr (inl (x, ec)) ↦ inl (rw (ea, eb, ec, create_port) at h)
                  | inr (inr ec) ↦ inl (rw (ea, eb, ec, create_port) at h)
                  | inl (c, ec) ↦
                      let ops = (a ++ b) ++ c in
                      let seen = runs.insert_port i p bridge a b c s br n ea eb ec in
                      elim (Result-cases (client.transact ops s).0) [
                        | inr (inl (x, et)) ↦ absurd (cc (rw et at (answers ops s)))
                        | inr (inr et) ↦ elim (seen (rw (ea, eb, ec, et, create_port) at h)) [
                          | inl old ↦ inl old
                          | inr (at_bridge, named, fine) ↦
                              inr (at_bridge, named, rw (ea, eb, ec, et, create_port) refl)
                        ]
                        | inl (rs, et) ↦ elim (Option-cases (client.operation_errors rs ops)) [
                          | inl eo ↦ elim (seen (rw (ea, eb, ec, et, create_port) at h)) [
                            | inl old ↦ inl old
                            | inr (at_bridge, named, fine) ↦
                                inr (at_bridge, named, rw (ea, eb, ec, et, eo, create_port) refl)
                          ]
                          | inr (errs, eo) ↦ elim (seen (rw (ea, eb, ec, et, create_port) at h)) [
                            | inl old ↦ inl old
                            | inr (at_bridge, named, fine) ↦
                                absurd (cc (rw (et, eo, rejected) at fine))
                          ]
                        ]
                      ]
                ]
          ]
        ]
