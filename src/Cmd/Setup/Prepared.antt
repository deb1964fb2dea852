-- ===== src/Cmd/Setup/Prepared.antt =====
-- Which commands `labctl setup` runs.
use firecracker_lab.Prelude.{
  Text, codes, ℤ, ◌≡◌, refl, ◌∙◌, ap, List, [], ◌∷◌, ◌++◌, inl, inr, ℕ_discrete,
}
use firecracker_lab.Prelude.Decimal.{format_int}
use firecracker_lab.Strings.{fields}
use firecracker_lab.Cmd.Setup.Firewall.{table_text, firewall, ruleset_text-firewall}
use firecracker_lab.World.{
  exec, exec_input, Call, History, Host, Result, ok, err, World, ⊤, call, for_each, call-cases,
  logged,
}
use firecracker_lab.World.Ends.{step}
use firecracker_lab.Cmd.{Config}
use firecracker_lab.Cmd.Setup.{
  steps, ruleset_text, warned, apply_nft_ruleset, locate, prepare, run_setup,
}

-- The history behind commands that were run in order.
abbrev pub ran : List (List Text) → History → History
ran [] h = h
ran (args ∷ rest) h = ran rest (exec args ∷ h)

nft_call : Text → Text → Call
nft_call wan lan = exec_input (codes "nft" ∷ codes "-f" ∷ codes "-" ∷ []) (ruleset_text wan lan)

module _ (host : Host) where
  -- A call whose failure is only a warning.
  warned-call : (c : Call) (w : World) → warned (call host c) w ≡ (ok tt, logged c w)
  unfolding warned
  warned-call c w = elim (call-cases host c w) [ inl e ↦ rw e refl | inr e ↦ rw e refl ]

  for_each-ran :
      (xs : List (List Text)) (w : World)
      → for_each xs (λ args. warned (call host (exec args))) w
        ≡ (ok tt, record w { log = ran xs w.log })
  unfolding for_each
  for_each-ran [] w = refl
  for_each-ran (args ∷ rest) w =
      rw (warned-call (exec args) w) (for_each-ran rest (logged (exec args) w))

  module _ (cfg : Config) (uid gid : ℤ) (flag : Text) where
    prepare-ran :
        (wan lan : Text) (x : World)
        → prepare host cfg uid gid (wan, lan) x
          ≡ (ok tt, logged (nft_call wan lan) (record x { log = ran (steps cfg uid gid) x.log }))
    unfolding prepare apply_nft_ruleset nft_call
    prepare-ran wan lan x =
        rw (for_each-ran (steps cfg uid gid) x)
          (warned-call (nft_call wan lan) (record x { log = ran (steps cfg uid gid) x.log }))

-- The nine commands, as they are typed: a bridge with the address of the gateway, forwarding, the
-- directory of the jailer, the group and the user of the VMs, and the data directory, which is theirs.
abbrev pub commands : Config → ℤ → ℤ → List (List Text)
commands cfg uid gid =
    fields (codes "ip link add br0 type bridge")
    ∷ fields (codes "ip addr add 172.16.0.1/24 dev br0")
    ∷ fields (codes "ip link set br0 up")
    ∷ fields (codes "sysctl -w net.ipv4.ip_forward=1")
    ∷ fields (codes "mkdir -p /srv/jailer/firecracker")
    ∷ (fields (codes "groupadd --system -g") ++ (format_int gid ∷ codes "labctl-vm" ∷ []))
    ∷ (fields (codes "useradd --system --no-create-home -u")
        ++ (format_int uid ∷ codes "-g" ∷ format_int gid ∷ codes "labctl-vm" ∷ []))
    ∷ (fields (codes "mkdir -p") ++ cfg.data_dir ∷ [])
    ∷ (codes "chown" ∷ (format_int uid ++ (b':' ∷ format_int gid)) ∷ cfg.data_dir ∷ [])
    ∷ []

steps-commands : (cfg : Config) (uid gid : ℤ) → steps cfg uid gid ≡ commands cfg uid gid
unfolding steps fields ℕ_discrete
steps-commands cfg uid gid = refl

-- The rules that are loaded.
abbrev pub load_rules : Text → Text → Call
load_rules wan lan =
    exec_input (fields (codes "nft -f -")) (table_text (codes "labctl") (firewall wan lan))

nft_call-load_rules : (wan lan : Text) → nft_call wan lan ≡ load_rules wan lan
unfolding nft_call fields ℕ_discrete
nft_call-load_rules wan lan =
    ap (exec_input (codes "nft" ∷ codes "-f" ∷ codes "-" ∷ [])) (ruleset_text-firewall wan lan)

module _ (host : Host) (cfg : Config) (uid gid : ℤ) (flag : Text) where
  -- What `setup` from world `w` has done, by how it ended.
  abbrev pub Prepared : World → Result ⊤ × World → Type 0
  Prepared w (ok a, v) =
      (wan : Text) × (lan : Text) × (x : World) × (locate host flag w ≡ (ok (wan, lan), x))
      × (v.log ≡ load_rules wan lan ∷ ran (commands cfg uid gid) x.log)
  Prepared w (err e, v) = locate host flag w ≡ (err e, v)

  -- A setup fails only if the interface or its network is not found, and then it runs no command of
  -- the set-up. Otherwise it succeeds, and has run the nine commands in order and then has loaded
  -- the table of rules for that interface and network, whether or not any of them failed.
  pub run_setup-Prepared : (w : World) → Prepared w (run_setup host cfg uid gid flag w)
  unfolding run_setup
  run_setup-Prepared w =
      (step (locate host flag) (prepare host cfg uid gid) w (Prepared w)
        (λ (wan, lan) x e. record {
          ends = rw (prepare-ran host cfg uid gid flag wan lan x) (
            wan,
            lan,
            x,
            e,
            ap (λ c. c ∷ ran (steps cfg uid gid) x.log) (nft_call-load_rules wan lan)
                ∙ ap (λ cs. load_rules wan lan ∷ ran cs x.log) (steps-commands cfg uid gid),
          );
        })
        (λ err v e. e)).ends
