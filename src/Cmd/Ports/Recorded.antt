-- ===== src/Cmd/Ports/Recorded.antt =====
-- What `labctl ports add` and `labctl ports rm` do to the state database.
use mathlib.Core.Path.{subst}
use firecracker_lab.Prelude.{
  Text, ℤ, ◌≡◌, refl, sym, ◌∙◌, ap, Bool, true, false, Option, none, some, List, [], ◌∷◌, ◌++◌, ◌⊎◌,
  inl, inr, arith, int_eq, if◌then◌else◌, ◌==◌, ◌≢◌, Bool-cases,
}
use firecracker_lab.Agent.{Codec}
use firecracker_lab.Agent.Unrecorded.{start_proxy-Keeps, stop_proxy-Keeps}
use firecracker_lab.World.{Host, Error, Result, ok, err, World, Action, ⊤, pure, ◌>>=◌}
use firecracker_lab.World.Rows.{VmRow, Db}
use firecracker_lab.World.Keeps.{Keeps, keeping}
use firecracker_lab.World.Ends.{Ends, step, after, last, unless, provided}
use firecracker_lab.State.Ports.{marshal_ports}
use firecracker_lab.State.Vms.{Vm, write_ports, set_ports}
use firecracker_lab.State.Vms.Effects.{Becomes, set_ports-Becomes}
use firecracker_lab.Runner.{Runner}
use firecracker_lab.Runner.Lifecycle.{is_alive}
use firecracker_lab.Runner.Lifecycle.Unrecorded.{
  IsReal, launch_port_forwards-Keeps, stop_port_forwards-Keeps, is_alive-Keeps_real,
}
use firecracker_lab.Cmd.{Config, plain_runner}
use firecracker_lab.Cmd.Lookup.{IsRowOf, loaded, required, plain_runner-IsReal}
use firecracker_lab.Cmd.Ports.{
  atoi, parse_port, valid_port, contains, without, forwarding_runner, not_forwarded, forwarded,
  start_forward, stop_forward, add, rm,
}

valid_port-ok :
    (arg : Text) (parsed : Option ℤ) (w : World) (port : ℤ) (v : World)
    → valid_port arg parsed w ≡ (ok port, v)
    → (parsed ≡ some port) × (v ≡ w)
unfolding valid_port
valid_port-ok arg none w port v h = absurd cc
valid_port-ok arg (some p) w port v h = (ground (arith, h), ground (arith, h))

valid_port-err :
    (arg : Text) (parsed : Option ℤ) (w : World) (e : Error) (v : World)
    → valid_port arg parsed w ≡ (err e, v)
    → v.db ≡ w.db
unfolding valid_port
valid_port-err arg none w e v h = ap (λ o. o.1.db) (sym h)
valid_port-err arg (some p) w e v h = absurd cc

-- The port that a command is given, as the first step.
parsed_port :
    {B : Type 0} (arg : Text) (f : ℤ → Action B) (w : World) (Q : Result B × World → Type 0)
    → ((port : ℤ) (v : World) → v.db ≡ w.db → atoi arg ≡ some port → Ends (f port) v Q)
    → ((e : Error) (v : World) → v.db ≡ w.db → Q (err e, v))
    → Ends (parse_port arg >>= f) w Q
unfolding parse_port
parsed_port arg f w Q h k =
    step (parse_port arg) f w Q
      (λ port v e.
        let (parsed, same) = valid_port-ok arg (atoi arg) w port v e in
        h port v (ap (λ x. x.db) same) parsed)
      (λ x v e. k x v (valid_port-err arg (atoi arg) w x v e))

-- What a change of the ports of one VM has done: the list that `keep` gives for a port is stored.
abbrev pub Stored : Text → Text → Bool → (ℤ → List ℤ → List ℤ) → Db → World → Type 0
Stored id arg present change db w =
    (port : ℤ) × (r : VmRow) × (u : Vm) × (atoi arg ≡ some port)
    × IsRowOf id db.vms r u
    × (contains port u.ports ≡ present)
    × (w.db ≡ record db { vms = write_ports (marshal_ports (change port u.ports)) id db.vms })

-- The change is stored if the command succeeds; if it fails, nothing or that change is.
abbrev pub Changed : Text → Text → Bool → (ℤ → List ℤ → List ℤ) → Db → Result ⊤ × World → Type 0
Changed id arg present change db (ok a, w) = Stored id arg present change db w
Changed id arg present change db (err e, w) = (w.db ≡ db) ⊎ Stored id arg present change db w

-- A list of ports and what is left of it when every occurrence of one port is taken out.
pub data Removed (port : ℤ) : List ℤ → List ℤ → Type 0 where
  no_ports : Removed port [] []
  taken_out : {ports left : List ℤ} → Removed port ports left → Removed port (port ∷ ports) left
  left_in :
      {ports left : List ℤ} (p : ℤ)
      → p ≢ port
      → Removed port ports left
      → Removed port (p ∷ ports) (p ∷ left)

without-Removed : (port : ℤ) (ports : List ℤ) → Removed port ports (without port ports)
unfolding without
without-Removed port [] = Removed.no_ports
without-Removed port (p ∷ ports) = elim (Bool-cases (p == port)) [
  | inl e ↦ rw e (
      subst (λ q. Removed port (q ∷ ports) (without port ports)) (sym (ground (arith, e)))
        (Removed.taken_out (without-Removed port ports)))
  | inr n ↦ rw n (Removed.left_in p (ground (arith, n)) (without-Removed port ports))
]

-- What `ports rm` has stored.
abbrev pub Dropped : Text → Text → Db → World → Type 0
Dropped id arg db w =
    (port : ℤ) × (r : VmRow) × (u : Vm) × (left : List ℤ) × (atoi arg ≡ some port)
    × IsRowOf id db.vms r u
    × (contains port u.ports ≡ true)
    × Removed port u.ports left
    × (w.db ≡ record db { vms = write_ports (marshal_ports left) id db.vms })

Stored-Dropped :
    (id arg : Text) (db : Db) (w : World) → Stored id arg true without db w → Dropped id arg db w
Stored-Dropped id arg db w (port, r, u, parsed, at, guard, same) =
    (port, r, u, without port u.ports, parsed, at, guard, without-Removed port u.ports, same)

-- That is stored if the command succeeds; if it fails, nothing or that is.
abbrev pub DroppedBy : Text → Text → Db → Result ⊤ × World → Type 0
DroppedBy id arg db (ok a, w) = Dropped id arg db w
DroppedBy id arg db (err e, w) = (w.db ≡ db) ⊎ Dropped id arg db w

Changed-DroppedBy :
    (id arg : Text) (db : Db) (o : Result ⊤ × World)
    → Changed id arg true without db o
    → DroppedBy id arg db o
Changed-DroppedBy id arg db (ok a, w) h = Stored-Dropped id arg db w h
Changed-DroppedBy id arg db (err e, w) (inl same) = inl same
Changed-DroppedBy id arg db (err e, w) (inr h) = inr (Stored-Dropped id arg db w h)

module _ (host : Host) (codec : Codec) (cfg : Config) (id arg : Text) where
  -- What follows the lookup and the guard, in both commands.
  stored :
      (present : Bool) (change : ℤ → List ℤ → List ℤ) (db : Db) (rest : Action ⊤)
      → Keeps rest
      → (port : ℤ) (r : VmRow) (u : Vm) (v : World) → v.db ≡ db
      → atoi arg ≡ some port
      → IsRowOf id db.vms r u
      → contains port u.ports ≡ present
      → Ends
          (set_ports host id (some (change port u.ports)) >>= λ _. rest)
          v
          (Changed id arg present change db)
  stored present change db rest keeps port r u v same parsed at guard =
      after (set_ports host id (some (change port u.ports))) _ v (Changed id arg present change db)
        (Becomes db
          (record db { vms = write_ports (marshal_ports (change port u.ports)) id db.vms }))
        (subst
          (λ d.
            Becomes d
              (record d { vms = write_ports (marshal_ports (change port u.ports)) id d.vms })
              (set_ports host id (some (change port u.ports)) v))
          same (set_ports-Becomes host v id (change port u.ports)))
        (λ _ x s.
          last rest x (Changed id arg present change db) (λ o. o.1.db ≡ x.db) (keeps.same_db x)
            (λ _ y t. (port, r, u, parsed, at, guard, t ∙ s))
            (λ _ y t. inr (port, r, u, parsed, at, guard, t ∙ s)))
        (λ _ x s. inl s)

  forwarding_runner-IsReal : IsReal (forwarding_runner cfg)
  unfolding forwarding_runner plain_runner
  forwarding_runner-IsReal = record { net_eq = refl; supervisor_eq = refl; forwarder_eq = refl }

  start_forward-Keeps :
      (r : Runner) (real : IsReal r) (v : Vm) (port : ℤ)
      → Keeps (start_forward host codec cfg r v port)
  unfolding start_forward
  start_forward-Keeps r real v port =
      search (keeping, launch_port_forwards-Keeps host codec r real, start_proxy-Keeps) depth 8

  stop_forward-Keeps :
      (r : Runner) (real : IsReal r) (v : Vm) (port : ℤ)
      → Keeps (stop_forward host codec cfg r v port)
  unfolding stop_forward
  stop_forward-Keeps r real v port =
      search
        (
          keeping,
          stop_port_forwards-Keeps host codec r real,
          is_alive-Keeps_real host codec r real,
          stop_proxy-Keeps,
        )
        depth 10

  started-Keeps :
      (v : Vm) (port : ℤ)
      → Keeps (
          is_alive host codec (forwarding_runner cfg) v >>= λ alive.
          if alive then start_forward host codec cfg (forwarding_runner cfg) v port else pure tt)
  started-Keeps v port =
      search
        (
          keeping,
          is_alive-Keeps_real host codec (forwarding_runner cfg) forwarding_runner-IsReal,
          start_forward-Keeps (forwarding_runner cfg) forwarding_runner-IsReal,
        )
        depth 8

  -- A `ports add` that succeeds was given a text that Atoi reads as a number which the VM's ports do
  -- not contain, and has stored it behind them; one that fails has changed nothing or has stored
  -- just that.
  pub add-Changed :
      (w : World)
      → Changed id arg false (λ port ports. ports ++ port ∷ []) w.db (add host codec cfg id arg w)
  unfolding add
  add-Changed w =
      let Q : Result ⊤ × World → Type 0 =
        Changed id arg false (λ port ports. ports ++ port ∷ []) w.db in
      (parsed_port arg _ w Q
        (λ port v0 s0 parsed.
          loaded host w.db v0 Q _ s0
            (λ _ v1 s1.
              required host w.db v1 Q id _ s1
                (λ u v2 s2 r at.
                  unfold not_forwarded in
                  unless (contains port u.ports) _ _ v2 Q
                    (λ guard.
                      stored false (λ p ports. ports ++ p ∷ []) w.db _ (started-Keeps u port) port r
                        u v2 s2 parsed at guard)
                    (inl s2))
                (λ _ _ s. inl s))
            (λ _ _ s. inl s))
        (λ _ _ s. inl s)).ends

  pub rm-without : (w : World) → Changed id arg true without w.db (rm host codec cfg id arg w)
  unfolding rm
  rm-without w =
      let Q : Result ⊤ × World → Type 0 = Changed id arg true without w.db in
      (parsed_port arg _ w Q
        (λ port v0 s0 parsed.
          loaded host w.db v0 Q _ s0
            (λ _ v1 s1.
              required host w.db v1 Q id _ s1
                (λ u v2 s2 r at.
                  unfold forwarded in
                  provided (contains port u.ports) _ _ v2 Q
                    (λ guard.
                      stored true without w.db _
                        (stop_forward-Keeps (plain_runner cfg) (plain_runner-IsReal cfg) u port)
                        port r u v2 s2 parsed at guard)
                    (inl s2))
                (λ _ _ s. inl s))
            (λ _ _ s. inl s))
        (λ _ _ s. inl s)).ends

  -- A `ports rm` that succeeds was given a port that the VM's ports contain, and has stored the
  -- ports without each occurrence of it, in order; one that fails has changed nothing or has stored
  -- just that.
  pub rm-Changed : (w : World) → DroppedBy id arg w.db (rm host codec cfg id arg w)
  rm-Changed w = Changed-DroppedBy id arg w.db (rm host codec cfg id arg w) (rm-without w)
