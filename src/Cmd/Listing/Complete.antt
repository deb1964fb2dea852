-- ===== src/Cmd/Listing/Complete.antt =====
-- That `labctl list` lists every VM.
use mathlib.Core.Path.{subst}
use firecracker_lab.Prelude.{
  Text, Option, none, some, ◌%◌, ◌^◌, arith, ◌≡◌, ◌≢◌, refl, sym, ◌∙◌, ap, List, [], ◌∷◌, map,
  codes, if◌then◌else◌,
}
use firecracker_lab.Agent.{Codec}
use firecracker_lab.World.{
  sql, open_db, logged, Host, IsSqlUp, Result, ok, err, World, Action, Error, pure, sql-ok, ◌>>=◌,
}
use firecracker_lab.World.Rows.{Db}
use firecracker_lab.World.Keeps.{Keeps, keeping}
use firecracker_lab.World.Ends.{Ends, after}
use firecracker_lab.World.Total.{IsTotal, IsOk, totals}
use firecracker_lab.State.Vms.{Vm}
use firecracker_lab.State.Vms
use firecracker_lab.State.Vms.Effects.{list-Keeps}
use firecracker_lab.State.Vms.Ledger.{IsLedger}
use firecracker_lab.State.Vms.Reads.{vms_of, list-vms_of}
use firecracker_lab.Agent.Unrecorded.{query_status-Keeps}
use firecracker_lab.Runner.Lifecycle.{is_alive}
use firecracker_lab.Runner.Lifecycle.Unrecorded.{is_alive-Keeps_real, is_alive-IsTotal}
use firecracker_lab.Cmd.{Config, load, plain_runner}
use firecracker_lab.Cmd.Lookup.{plain_runner-IsReal}
use firecracker_lab.Cmd.Listing.Bytes.{format_bytes-some}
use firecracker_lab.Agent.{StatusResponse}
use firecracker_lab.Cmd.Listing.{
  Health, nil_status, described, health_of, or_panic, Line, no_health, guest_status, line_of,
  lines_of, list_vms,
}

ok_injective : {a b : List Vm} → Result.ok a ≡ ok b → a ≡ b
ok_injective h = cc

err-ne-ok : {e : Error} {a : List Vm} → err e ≢ ok a
err-ne-ok h = cc

module _ (host : Host) (codec : Codec) (cfg : Config) where
  alive-Keeps : (v : Vm) → Keeps (is_alive host codec (plain_runner cfg) v)
  alive-Keeps v = is_alive-Keeps_real host codec (plain_runner cfg) (plain_runner-IsReal cfg) v

  alive-IsTotal : (v : Vm) → IsTotal (is_alive host codec (plain_runner cfg) v)
  alive-IsTotal v = is_alive-IsTotal host codec (plain_runner cfg) (plain_runner-IsReal cfg) v

  or_panic-Keeps : (o : Option Health) → Keeps (or_panic o)
  unfolding or_panic
  or_panic-Keeps none = search keeping
  or_panic-Keeps (some health) = search keeping

  health_of-some : (st : StatusResponse) → (health : Health) × (health_of st ≡ some health)
  unfolding health_of
  health_of-some st =
      let b = st.mem_available_bytes % 2 ^ 64 in
      let (printed, e) = format_bytes-some b (omega arith) in rw e (_, refl)

  described-some :
      (answer : Result (Option StatusResponse))
      → (health : Health) × (described answer ≡ some health)
  unfolding described
  described-some (err e) = (_, refl)
  described-some (ok none) = health_of-some nil_status
  described-some (ok (some st)) = health_of-some st

  or_panic-IsTotal :
      (answer : Result (Option StatusResponse)) → IsTotal (or_panic (described answer))
  unfolding or_panic
  or_panic-IsTotal answer = let (health, e) = described-some answer in rw e (search totals)

  guest_status-Keeps : (id : Text) → Keeps (guest_status host codec cfg id)
  unfolding guest_status
  guest_status-Keeps id = search (keeping, query_status-Keeps, or_panic-Keeps) depth 8

  guest_status-IsTotal : (id : Text) → IsTotal (guest_status host codec cfg id)
  unfolding guest_status
  guest_status-IsTotal id = search (totals, or_panic-IsTotal) depth 8

  -- The lines are those of the VMs, and the database is as it was.
  abbrev pub Listed : List Vm → Db → Result (List Line) × World → Type 0
  Listed vms db (ok lines, w) = (map (λ (l : Line). l.vm) lines ≡ vms) × (w.db ≡ db)
  Listed vms db (err e, w) = ⊥

  abbrev LineOf : Vm → Db → Result Line × World → Type 0
  LineOf v db (ok l, w) = (l.vm ≡ v) × (w.db ≡ db)
  LineOf v db (err e, w) = ⊥

  -- A step that gives no error and keeps the database.
  safe :
      {A B : Type 0} (m : Action A) (f : A → Action B) (w : World) (db : Db)
      (Q : Result B × World → Type 0)
      → IsTotal m
      → Keeps m
      → w.db ≡ db
      → ((a : A) (v : World) → v.db ≡ db → Ends (f a) v Q)
      → Ends (m >>= f) w Q
  safe m f w db Q total keeps same h =
      after m f w Q (λ o. IsOk o × (o.1.db ≡ db)) (total.total w, keeps.same_db w ∙ same)
        (λ a v p. h a v p.1) (λ e v p. absurd p.0)

  line_of-LineOf :
      (v : Vm) (w : World) (db : Db) → w.db ≡ db → LineOf v db (line_of host codec cfg v w)
  unfolding line_of
  line_of-LineOf v w db same =
      (safe (is_alive host codec (plain_runner cfg) v) _ w db (LineOf v db) (alive-IsTotal v)
        (alive-Keeps v) same
        (λ alive w1 s1.
          safe
            (if alive then guest_status host codec cfg v.id else pure (no_health (codes "stopped")))
            _ w1 db (LineOf v db) (search (totals, guest_status-IsTotal))
            (search (keeping, guest_status-Keeps)) s1
            (λ health w2 s2. record { ends = (refl, s2) }))).ends

  lines_of-Listed :
      (vs : List Vm) (w : World) (db : Db) → w.db ≡ db → Listed vs db (lines_of host codec cfg vs w)
  unfolding lines_of
  lines_of-Listed [] w db same = (refl, same)
  lines_of-Listed (v ∷ vs) w db same =
      (after (line_of host codec cfg v) _ w (Listed (v ∷ vs) db) (LineOf v db)
        (line_of-LineOf v w db same)
        (λ l w1 p1.
          after (lines_of host codec cfg vs) _ w1 (Listed (v ∷ vs) db) (Listed vs db)
            (lines_of-Listed vs w1 db p1.1)
            (λ ls w2 p2. record {
              ends = (
                ap (λ (x : Vm). x ∷ map (λ (l : Line). l.vm) ls) p1.0
                    ∙ ap (λ (xs : List Vm). v ∷ xs) p2.0,
                p2.1,
              );
            })
            (λ e w2 p2. absurd p2))
        (λ e w1 p1. absurd p1)).ends

  -- On a host whose database answers, `list` of a ledger succeeds, whatever systemd and the agents
  -- answer, and does not panic on the memory that they report: it prints one line for each row, in order, and leaves the database as it was.
  pub list_vms-Listed :
      (w : World) (sound : IsLedger w.db.vms)
      → IsSqlUp host
      → Listed (vms_of w.db.vms sound) w.db (list_vms host codec cfg w)
  unfolding list_vms load
  list_vms-Listed w sound up =
      let vms = vms_of w.db.vms sound in
      let w1 = logged (sql open_db) w in
      rw (sql-ok host open_db w up)
        (after (Vms.list host) _ w1 (Listed vms w.db) (λ o. (o.0 ≡ ok vms) × (o.1.db ≡ w.db))
          (list-vms_of host w1 up sound, (list-Keeps host).same_db w1)
          (λ found w2 p2. record {
            ends =
                subst (λ vs. Listed vms w.db (lines_of host codec cfg vs w2))
                  (ok_injective (sym p2.0)) (lines_of-Listed vms w2 w.db p2.1);
          })
          (λ e w2 p2. absurd (err-ne-ok p2.0))).ends
