-- ===== src/Pci.antt =====
-- pkg/pci/pci.go: the address in a dpdk-devargs text, and the NUMA node that sysfs has of a device.
-- Reading a file, `strings.TrimSpace` and `strconv.Atoi` are parameters.
pub mod Address
use Prim.Native.String
use Prim.Native.Char.{code}
use dra_driver_ovsdpdk_upstr.Base.{
  ℕ, String, Bool, true, false, ◌&&◌, ◌||◌, List, [], ◌∷◌, ℤ, Result, ok, err, panic, msg, wrap,
  Exec, leb, nat_eq, if◌then◌else◌, split, first_part,
}
use dra_driver_ovsdpdk_upstr.Base.FilePath

-- What the operating system and the standard library do for `NodeForPCIAddr`.
pub record Sysfs (S : Type 0) : Type 0 where
  pub base_dir : String
  pub read_file : String → Exec S String
  pub trim_space : String → String
  pub atoi : String → Result ℤ

-- One place of the regular expression.
pub data Place : Type 0 where
  hex colon dot : Place

abbrev pub is_hex : ℕ → Bool
is_hex c = (leb b'0' c && leb c b'9') || (leb b'a' c && leb c b'f') || (leb b'A' c && leb c b'F')

fits : Place → ℕ → Bool
fits hex c = is_hex c
fits colon c = nat_eq c b':'
fits dot c = nat_eq c b'.'

-- The whole text is one character for each place.
unfoldable pub matches : List Place → String → Bool
unfolding fits
matches [] String.[] = true
matches [] (String.◌∷◌ c s) = false
matches (p ∷ ps) String.[] = false
matches (p ∷ ps) (String.◌∷◌ c s) = fits p (code c) && matches ps s

-- DDDD:BB:SS.F
abbrev pub pci_addr_re : List Place
pci_addr_re = hex ∷ hex ∷ hex ∷ hex ∷ colon ∷ hex ∷ hex ∷ colon ∷ hex ∷ hex ∷ dot ∷ hex ∷ []

unfoldable pub parse_devargs : String → Result String
unfolding matches
parse_devargs devargs =
    let field = first_part (split b',' devargs) in
    if matches pci_addr_re field then ok field else err (msg "unrecognized devargs format: %s")

node_of_text : Result ℤ → Result ℤ
node_of_text (err e) = err (wrap "parse numa_node for PCI device %q: %w" e)
node_of_text r = r

unfoldable pub node_for_pci_addr : {S : Type 0} → Sysfs S → String → Exec S ℤ
unfolding node_of_text
node_for_pci_addr sysfs addr s =
    let path =
      FilePath.join (sysfs.base_dir ∷ "bus" ∷ "pci" ∷ "devices" ∷ addr ∷ "numa_node" ∷ []) in
    let (text, s') = sysfs.read_file path s in
    elim text [
      | ok t ↦ (node_of_text (sysfs.atoi (sysfs.trim_space t)), s')
      | err e ↦ (err (wrap "read numa_node for PCI device %q: %w" e), s')
      | panic ↦ (panic, s')
    ]

-- The first two calls of `handleInterfaceAdd`.
unfoldable pub node_for_devargs : {S : Type 0} → Sysfs S → String → Exec S ℤ
unfolding parse_devargs node_for_pci_addr
node_for_devargs sysfs devargs s = elim (parse_devargs devargs) [
  | ok addr ↦ node_for_pci_addr sysfs addr s
  | err e ↦ (err e, s)
  | panic ↦ (panic, s)
]
