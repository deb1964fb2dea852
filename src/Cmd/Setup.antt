-- ===== src/Cmd/Setup.antt =====
-- cmd/setup.go: `labctl setup`.
pub mod Firewall
pub mod Prepared
use firecracker_lab.Prelude.{
  Text, codes, ℤ, Option, none, some, List, [], ◌∷◌, ◌++◌, ◌==◌, text_eq, if◌then◌else◌,
}
use firecracker_lab.Prelude.Decimal.{format_int}
use firecracker_lab.Cidr.{parse_cidr}
use firecracker_lab.Strings.{fields}
use firecracker_lab.World.{
  exec, exec_input, Host, message, Action, ⊤, pure, raise, attempt, wrapping, call, ask, for_each,
  ◌>>=◌, ◌>>◌,
}
use firecracker_lab.Cmd.{Config}

-- The field behind the first field that is `key` and has one behind it.
unfoldable pub following : Text → List Text → Option Text
following key [] = none
following key (f ∷ []) = none
following key (f ∷ g ∷ rest) =
    let later = following key (g ∷ rest) in if f == key then some g else later

unfoldable pub route_args : List Text
route_args = codes "ip" ∷ codes "route" ∷ codes "show" ∷ codes "default" ∷ []

unfoldable pub address_args : Text → List Text
address_args iface =
    codes "ip" ∷ codes "-o" ∷ codes "-4" ∷ codes "addr" ∷ codes "show" ∷ codes "dev" ∷ iface ∷ []

-- The commands of the set-up, in order.
unfoldable pub steps : Config → ℤ → ℤ → List (List Text)
steps cfg uid gid =
    (codes "ip" ∷ codes "link" ∷ codes "add" ∷ codes "br0" ∷ codes "type" ∷ codes "bridge" ∷ [])
    ∷ (codes "ip"
        ∷ codes "addr"
        ∷ codes "add"
        ∷ codes "172.16.0.1/24"
        ∷ codes "dev"
        ∷ codes "br0"
        ∷ [])
    ∷ (codes "ip" ∷ codes "link" ∷ codes "set" ∷ codes "br0" ∷ codes "up" ∷ [])
    ∷ (codes "sysctl" ∷ codes "-w" ∷ codes "net.ipv4.ip_forward=1" ∷ [])
    ∷ (codes "mkdir" ∷ codes "-p" ∷ codes "/srv/jailer/firecracker" ∷ [])
    ∷ (codes "groupadd" ∷ codes "--system" ∷ codes "-g" ∷ format_int gid ∷ codes "labctl-vm" ∷ [])
    ∷ (codes "useradd"
        ∷ codes "--system"
        ∷ codes "--no-create-home"
        ∷ codes "-u"
        ∷ format_int uid
        ∷ codes "-g"
        ∷ format_int gid
        ∷ codes "labctl-vm"
        ∷ [])
    ∷ (codes "mkdir" ∷ codes "-p" ∷ cfg.data_dir ∷ [])
    ∷ (codes "chown" ∷ (format_int uid ++ (codes ":" ++ format_int gid)) ∷ cfg.data_dir ∷ [])
    ∷ []

-- The text of `applyNftRuleset`.
unfoldable pub ruleset_text : Text → Text → Text
ruleset_text wan lan =
    codes
      "\ntable inet labctl {\n\tchain forward {\n\t\ttype filter hook forward priority 0; policy drop;\n"
    ++ (codes "\t\tiifname \"br0\" ip daddr "
        ++ (lan
            ++ (codes " drop\n"
                ++ (codes "\t\tiifname \"br0\" oifname \""
                    ++ (wan
                        ++ (codes "\" accept\n"
                            ++ (codes "\t\tiifname \""
                                ++ (wan
                                    ++ (codes
                                          "\" oifname \"br0\" ct state established,related accept\n\t}\n"
                                        ++ (codes
                                              "\tchain input {\n\t\ttype filter hook input priority 0; policy accept;\n"
                                            ++ (codes
                                                  "\t\tiifname \"br0\" ct state established,related accept\n\t\tiifname \"br0\" drop\n\t}\n"
                                                ++ (codes
                                                      "\tchain postrouting {\n\t\ttype nat hook postrouting priority 100;\n"
                                                    ++ (codes
                                                          "\t\tip saddr 172.16.0.0/24 ip daddr != "
                                                        ++ (lan
                                                            ++ (codes " oifname \""
                                                            ++ (wan
                                                            ++ codes
                                                            "\" masquerade\n\t}\n}\n"))))))))))))))))

or_no_route : Option Text → Action Text
or_no_route none = raise (message (codes "no default route found (use --wan to set manually)"))
or_no_route (some wan) = pure wan

parsed_address : Text → Option Text → Action Text
parsed_address address none = raise (message (codes "invalid CIDR address: " ++ address))
parsed_address address (some network) = pure network

or_no_address : Text → Option Text → Action Text
unfolding parsed_address
or_no_address iface none = raise (message (codes "no inet address found on " ++ iface))
or_no_address iface (some address) = parsed_address address (parse_cidr address)

-- A command whose failure is only a warning.
unfoldable pub warned : Action ⊤ → Action ⊤
warned m = do attempt m; pure tt

module _ (host : Host) where
  -- The interface of the flag, or that of the default route.
  unfoldable pub wan_interface : Text → Action Text
  unfolding or_no_route
  wan_interface [] = do
    out ← wrapping (codes "could not detect default route interface") (ask host (exec route_args))
    or_no_route (following (codes "dev") (fields out))
  wan_interface (c ∷ flag) = pure (c ∷ flag)

  unfoldable pub interface_cidr : Text → Action Text
  unfolding or_no_address
  interface_cidr iface = do
    out ← ask host (exec (address_args iface))
    or_no_address iface (following (codes "inet") (fields out))

  unfoldable pub apply_nft_ruleset : Text → Text → Action ⊤
  apply_nft_ruleset wan lan =
      call host (exec_input (codes "nft" ∷ codes "-f" ∷ codes "-" ∷ []) (ruleset_text wan lan))

  -- The interface and its network.
  unfoldable pub locate : Text → Action (Text × Text)
  locate flag = do
    wan ← wan_interface flag
    lan ← wrapping (codes "could not detect LAN CIDR on " ++ wan) (interface_cidr wan)
    pure (wan, lan)

  prepare : Config → ℤ → ℤ → Text × Text → Action ⊤
  prepare cfg uid gid (wan, lan) = do
    for_each (steps cfg uid gid) (λ args. warned (call host (exec args)))
    warned (apply_nft_ruleset wan lan)

  -- `runSetup`
  unfoldable pub run_setup : Config → ℤ → ℤ → Text → Action ⊤
  unfolding prepare
  run_setup cfg uid gid flag = locate flag >>= prepare cfg uid gid
