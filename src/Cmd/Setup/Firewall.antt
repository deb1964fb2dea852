-- ===== src/Cmd/Setup/Firewall.antt =====
-- The rules that `labctl setup` loads (cmd/setup.go), as a table of nftables and not as its text.
use firecracker_lab.Prelude.{Text, codes, List, [], ◌∷◌, ◌++◌, ◌≡◌, refl, Option, none, some}
use firecracker_lab.Cmd.Setup.{ruleset_text}

-- What a packet must be for a rule to apply.
pub data Match : Type 0 where
  from_interface to_interface : Text → Match
  from_network to_network outside_network : Text → Match
  established : Match

pub data Verdict : Type 0 where
  accepted dropped masqueraded : Verdict

pub record Rule : Type 0 where
  pub matches : List Match
  pub verdict : Verdict

-- A base chain, at a hook with a priority, with a policy unless it is a chain of nat.
pub record Chain : Type 0 where
  pub name : Text
  pub kind : Text
  pub hook : Text
  pub priority : Text
  pub policy : Option Verdict
  pub rules : List Rule

-- The texts, each in front of the text behind it.
abbrev match_text : Match → Text → Text
match_text (from_interface i) rest = codes "iifname \"" ++ (i ++ (codes "\" " ++ rest))
match_text (to_interface i) rest = codes "oifname \"" ++ (i ++ (codes "\" " ++ rest))
match_text (from_network n) rest = codes "ip saddr " ++ (n ++ (codes " " ++ rest))
match_text (to_network n) rest = codes "ip daddr " ++ (n ++ (codes " " ++ rest))
match_text (outside_network n) rest = codes "ip daddr != " ++ (n ++ (codes " " ++ rest))
match_text established rest = codes "ct state established,related " ++ rest

abbrev verdict_text : Verdict → Text → Text
verdict_text accepted rest = codes "accept" ++ rest
verdict_text dropped rest = codes "drop" ++ rest
verdict_text masqueraded rest = codes "masquerade" ++ rest

abbrev matches_text : List Match → Text → Text
matches_text [] rest = rest
matches_text (m ∷ ms) rest = match_text m (matches_text ms rest)

abbrev rules_text : List Rule → Text → Text
rules_text [] rest = rest
rules_text (r ∷ rs) rest =
    codes "\t\t"
    ++ matches_text r.matches (verdict_text r.verdict (codes "\n" ++ rules_text rs rest))

abbrev policy_text : Option Verdict → Text → Text
policy_text none rest = rest
policy_text (some v) rest = codes " policy " ++ verdict_text v (codes ";" ++ rest)

abbrev chains_text : List Chain → Text → Text
chains_text [] rest = rest
chains_text (c ∷ cs) rest =
    codes "\tchain "
    ++ (c.name
        ++ (codes " {\n\t\ttype "
            ++ (c.kind
                ++ (codes " hook "
                    ++ (c.hook
                        ++ (codes " priority "
                            ++ (c.priority
                                ++ (codes ";"
                                    ++ policy_text c.policy (
                                        codes "\n"
                                        ++ rules_text c.rules
                                            (codes "\t}\n" ++ chains_text cs rest))))))))))

-- A table of family inet.
abbrev pub table_text : Text → List Chain → Text
table_text name chains =
    codes "\ntable inet " ++ (name ++ (codes " {\n" ++ chains_text chains (codes "}\n")))

abbrev bridge : Text
bridge = codes "br0"

-- VMs do not reach the local network nor the host, but for answers, and they reach what is behind
-- the interface `wan`, with its address; from there only answers reach them.
abbrev pub firewall : Text → Text → List Chain
firewall wan lan =
    record {
      name = codes "forward";
      kind = codes "filter";
      hook = codes "forward";
      priority = codes "0";
      policy = some dropped;
      rules =
          record { matches = from_interface bridge ∷ to_network lan ∷ []; verdict = dropped }
          ∷ record { matches = from_interface bridge ∷ to_interface wan ∷ []; verdict = accepted }
          ∷ record {
            matches = from_interface wan ∷ to_interface bridge ∷ established ∷ [];
            verdict = accepted;
          }
          ∷ [];
    }
    ∷ record {
      name = codes "input";
      kind = codes "filter";
      hook = codes "input";
      priority = codes "0";
      policy = some accepted;
      rules =
          record { matches = from_interface bridge ∷ established ∷ []; verdict = accepted }
          ∷ record { matches = from_interface bridge ∷ []; verdict = dropped }
          ∷ [];
    }
    ∷ record {
      name = codes "postrouting";
      kind = codes "nat";
      hook = codes "postrouting";
      priority = codes "100";
      policy = none;
      rules =
          record {
            matches =
                from_network (codes "172.16.0.0/24") ∷ outside_network lan ∷ to_interface wan ∷ [];
            verdict = masqueraded;
          }
          ∷ [];
    }
    ∷ []

-- The text of the source is that of the table.
pub ruleset_text-firewall :
    (wan lan : Text) → ruleset_text wan lan ≡ table_text (codes "labctl") (firewall wan lan)
unfolding ruleset_text
ruleset_text-firewall wan lan = refl
