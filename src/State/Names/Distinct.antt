-- ===== src/State/Names/Distinct.antt =====
-- Different indices have different names.
use firecracker_lab.Prelude.{
  Text, codes, ℕ, ◌+◌, ◌/◌, ◌%◌, ◌<◌, ◌≡◌, ◌≢◌, ◌↔◌, refl, [], ◌∷◌, ◌++◌, arith,
}
use firecracker_lab.Prelude.Lists.{All}
use firecracker_lab.Prelude.Decimal.{IsDigit, digits, digits_small, digits-All, digits_injective}
use firecracker_lab.State.Names.{tap_name, vm_id, vm_ip}

-- Digits up to a dot are determined by the text.
digits_cut :
    (s t x y : Text)
    → All IsDigit s
    → All IsDigit t
    → s ++ (b'.' ∷ x) ≡ t ++ (b'.' ∷ y)
    → (s ≡ t) × (x ≡ y)
digits_cut [] [] x y hs ht e = ground arith
digits_cut [] (d ∷ t) x y hs ht e = ground arith
digits_cut (c ∷ s) [] x y hs ht e = ground arith
digits_cut (c ∷ s) (d ∷ t) x y hs ht e = ground (arith, digits_cut s t x y hs.1 ht.1)

pub tap_name_injective : (i j : ℕ) → tap_name i ≡ tap_name j → i ≡ j
unfolding tap_name
tap_name_injective i j e = digits_injective i j (ground arith)

pub vm_id_injective : (i j : ℕ) → vm_id i ≡ vm_id j → i ≡ j
unfolding vm_id
vm_id_injective i j e = digits_injective i j (ground arith)

-- Two slots with the same address are the same slot.
pub vm_ip_injective : (i j : ℕ) → vm_ip i ≡ vm_ip j → i ≡ j
unfolding vm_ip
vm_ip_injective i j e =
    let (high, low) =
      digits_cut (digits ((i + 2) / 254)) (digits ((j + 2) / 254)) (digits ((i + 2) % 254 + 1))
        (digits ((j + 2) % 254 + 1)) (digits-All ((i + 2) / 254)) (digits-All ((j + 2) / 254))
        (ground arith) in
    omega (
      arith,
      digits_injective ((i + 2) / 254) ((j + 2) / 254) high,
      digits_injective ((i + 2) % 254 + 1) ((j + 2) % 254 + 1) low,
    )

-- The network of the bridge, 172.16.0.1/24 (cmd/setup.go), and the netmask and the gateway of the
-- boot arguments (vm/vm.go, bootVM).
abbrev pub bridge_prefix : Text
bridge_prefix = codes "172.16.0."

abbrev pub gateway : Text
gateway = codes "172.16.0.1"

abbrev InBridge : Text → Type 0
InBridge ip = (rest : Text) × (ip ≡ bridge_prefix ++ rest)

vm_ip-low : (i : ℕ) → i < 252 → InBridge (vm_ip i)
unfolding vm_ip
vm_ip-low i h = (digits ((i + 2) % 254 + 1), rw (small, digits_small 0 (omega arith)) refl)
  where
    small : (i + 2) / 254 ≡ 0
    small = omega arith

vm_ip-high : (i : ℕ) → InBridge (vm_ip i) → i < 252
unfolding vm_ip
vm_ip-high i (rest, e) =
    let (high, _) =
      digits_cut (digits ((i + 2) / 254)) (digits 0) (digits ((i + 2) % 254 + 1)) rest
        (digits-All ((i + 2) / 254)) (digits-All 0)
        (rw (digits_small 0 (omega arith)) (ground arith)) in
    omega (arith, digits_injective ((i + 2) / 254) 0 high)

-- The address of slot i lies in the network of the bridge exactly when i is below 252.
pub vm_ip_in_bridge : (i : ℕ) → ((rest : Text) × (vm_ip i ≡ bridge_prefix ++ rest)) ↔ (i < 252)
vm_ip_in_bridge i = (vm_ip-high i, vm_ip-low i)

-- No VM has the address of the gateway.
pub vm_ip-ne-gateway : (i : ℕ) → vm_ip i ≢ gateway
unfolding vm_ip
vm_ip-ne-gateway i e =
    let (high, low) =
      digits_cut (digits ((i + 2) / 254)) (digits 0) (digits ((i + 2) % 254 + 1)) (digits 1)
        (digits-All ((i + 2) / 254)) (digits-All 0)
        (rw (digits_small 0 (omega arith), digits_small 1 (omega arith)) (ground arith)) in
    omega
      (arith, digits_injective ((i + 2) / 254) 0 high, digits_injective ((i + 2) % 254 + 1) 1 low)
