-- ===== src/Workflows/Subnet/Targets/Mapping.antt =====
-- The new addresses: in the new network, at the offset of the old ones, and different for different
-- cameras.
use pytvt.Prelude.{
  ℕ, ◌+◌, ◌-◌, ◌^◌, String, ◌≡◌, sym, ◌∙◌, ap, Bool, true, ◌&&◌, some, arith, ◌==◌, leb, ltb,
  Bool-cases, Option-cases, inl, inr,
}
use pytvt.Workflows.Client.{Network, IpAddress}
use pytvt.Workflows.Subnet.Targets.{mapped_ip}

-- An IPv4 network holds the addresses from its own on, as many as its prefix leaves free.
abbrev pub HoldsBlock : IpAddress → Network → Type 0
HoldsBlock ip net =
    (n : ℕ)
    → ip.has_address net n
      ≡ (leb net.network_address n && ltb n (net.network_address + 2 ^ (32 - net.prefixlen)))

-- The text of an address of the network is read as that address.
abbrev pub ReadsBack : IpAddress → Network → Type 0
ReadsBack ip net = (n : ℕ) → ip.has_address net n ≡ true → ip.ip_address (ip.str_address n) ≡ some n

mapped_ip_cases :
    (ip : IpAddress) (t u : String) (old_net new_net : Network)
    → mapped_ip ip t old_net new_net ≡ some u
    → (old_net.prefixlen ≡ new_net.prefixlen)
      × ((n : ℕ) × (ip.ip_address t ≡ some n)
          × (ip.has_address old_net n ≡ true)
          × (ip.str_address (new_net.network_address + (n - old_net.network_address)) ≡ u))
unfolding mapped_ip
mapped_ip_cases ip t u old_net new_net h =
    elim (Bool-cases (old_net.prefixlen == new_net.prefixlen)) [
      | inr e ↦ absurd (ground arith)
      | inl e ↦ elim (Option-cases (ip.ip_address t)) [
        | inl f ↦ absurd (ground arith)
        | inr (n, f) ↦ elim (Bool-cases (ip.has_address old_net n)) [
          | inl g ↦ (ground arith, (n, f, g, ground arith))
          | inr g ↦ absurd (ground arith)
        ]
      ]
    ]

-- `n` is in the block of `k` addresses from `a` on.
abbrev in_block : ℕ → ℕ → ℕ → Bool
in_block a k n = leb a n && ltb n (a + k)

in_block-shift :
    (a b k n : ℕ)
    → in_block a k n ≡ true
    → (in_block b k (b + (n - a)) ≡ true) × (n + b ≡ b + (n - a) + a)
in_block-shift a b k n h = (ground arith, ground arith)

-- For two networks of one prefix length that hold their blocks, and addresses whose texts read
-- back: a mapped camera has an old address in the old network, and its new one is read as an address
-- of the new network at the same offset.
pub mapped_ip_keeps_host :
    (ip : IpAddress) (t u : String) (old_net new_net : Network)
    → HoldsBlock ip old_net
    → HoldsBlock ip new_net
    → ReadsBack ip new_net
    → mapped_ip ip t old_net new_net ≡ some u
    → (n m : ℕ) × (ip.ip_address t ≡ some n)
      × (ip.has_address old_net n ≡ true)
      × (ip.ip_address u ≡ some m)
      × (ip.has_address new_net m ≡ true)
      × (n + new_net.network_address ≡ m + old_net.network_address)
mapped_ip_keeps_host ip t u old_net new_net ho hn back h =
    let (e, (n, f, g, i)) = mapped_ip_cases ip t u old_net new_net h in
    let m : ℕ = new_net.network_address + (n - old_net.network_address) in
    let size : ℕ → ℕ = λ k. 2 ^ (32 - k) in
    let shifted =
      in_block-shift old_net.network_address new_net.network_address (size old_net.prefixlen) n
        (sym (ho n) ∙ g) in
    let inside : ip.has_address new_net m ≡ true =
      hn m ∙ ap (λ k. in_block new_net.network_address (size k) m) (sym e) ∙ shifted.0 in
    (n, m, f, g, ap ip.ip_address (sym i) ∙ back m inside, inside, shifted.1)

-- Under the same conditions two cameras that are mapped to one text have one address: a subnet
-- change never gives two cameras the same new address.
pub mapped_ip-injective :
    (ip : IpAddress) (s t u : String) (old_net new_net : Network)
    → HoldsBlock ip old_net
    → HoldsBlock ip new_net
    → ReadsBack ip new_net
    → mapped_ip ip s old_net new_net ≡ some u
    → mapped_ip ip t old_net new_net ≡ some u
    → ip.ip_address s ≡ ip.ip_address t
mapped_ip-injective ip s t u old_net new_net ho hn back hs ht =
    let (n, m, f, g, i, j, k) = mapped_ip_keeps_host ip s u old_net new_net ho hn back hs in
    let (n', m', f', g', i', j', k') = mapped_ip_keeps_host ip t u old_net new_net ho hn back ht in
    let same : m ≡ m' = cc (i, i') in let equal : n ≡ n' = omega arith in f ∙ ap some equal ∙ sym f'
