-- ===== src/Macho/NetworkOrder.antt =====
-- What the slice loop of kext/MachO.c makes of a fat file in network order.
use sedarwin.Prelude.{
  is_among, ℕ, ◌+◌, ◌*◌, ◌≤◌, List, false, some, ◌≡◌, ◌∙◌, inl, inr, ap, refl, arith, length,
}
use sedarwin.Macho.{Loader, MachoInfo, load32, macho_info, parsed}
use sedarwin.Macho.Loads.{Layout}
use sedarwin.Macho.Slices.{Picked-none, chosen, AreNetworkOrder}
use sedarwin.Macho.Report.{IsFat, fat_info, Fat, Reported}
use sedarwin.Macho.Parse.{macho_info_lem}

module _ (l : Loader) (image : List ℕ) (len : ℕ) where
  open l use {sizeof_fat_header, fh_magic, fh_nfat_arch, sizeof_fat_arch, ntohl}

  no_slice :
      (types : List ℕ) {m nfat : ℕ}
      → is_among (ntohl l.cpu_type_arm64) types ≡ false
      → AreNetworkOrder l image types (ntohl nfat)
      → load32 image fh_magic ≡ some m
      → IsFat l image len m
      → load32 image fh_nfat_arch ≡ some nfat
      → sizeof_fat_header + ntohl nfat * sizeof_fat_arch ≤ len
      → {status : ℕ} {info : MachoInfo} → Fat l image len status info
      → (status ≡ parsed) × (info ≡ fat_info l image len (ntohl nfat))
  no_slice types d b e p g room (Fat.small few) = absurd (omega arith)
  no_slice types d b e (inl p) g room (Fat.unknown magic r f q q') = absurd (q (cc (e, f, p)))
  no_slice types d b e (inr p) g room (Fat.unknown magic r f q q') = absurd (q' (cc (e, f, p)))
  no_slice types {m} {nfat} d b e p g room (Fat.long magic nfat_arch f q h past) =
      let same : ntohl nfat_arch ≡ ntohl nfat = cc (g, h) in
      absurd (omega (arith, ap (λ n. n * sizeof_fat_arch) same))
  no_slice types {m} {nfat} d b e p g room (Fat.read magic nfat_arch sub f q h r picked) =
      let same : ntohl nfat_arch ≡ ntohl nfat = cc (g, h) in
      let none_found = Picked-none l image types (ntohl nfat) d b (omega (arith, same)) picked in
      (
        refl,
        ap (chosen l image (fat_info l image len (ntohl nfat_arch))) none_found
            ∙ ap (fat_info l image len) same,
      )

  fat_only :
      (types : List ℕ) {m nfat : ℕ}
      → is_among (ntohl l.cpu_type_arm64) types ≡ false
      → AreNetworkOrder l image types (ntohl nfat)
      → fh_magic ≡ 0
      → load32 image 0 ≡ some m
      → IsFat l image len m
      → load32 image fh_nfat_arch ≡ some nfat
      → sizeof_fat_header + ntohl nfat * sizeof_fat_arch ≤ len
      → {status : ℕ} {info : MachoInfo} → Reported l image len status info
      → (status ≡ parsed) × (info ≡ fat_info l image len (ntohl nfat))
  fat_only types d b z e p g room (Reported.fat magic status info f q r) =
      no_slice types d b (ap (load32 image) z ∙ e) p g room r
  fat_only types d b z e (inl p) g room (Reported.thin magic status info f q r t) =
      absurd (q (cc (e, f, p)))
  fat_only types d b z e (inr p) g room (Reported.thin magic status info f q r t) =
      absurd (r (cc (e, f, p)))

  -- In a fat file whose whole table of entries is in the buffer, and whose entries have their types in
  -- network order, as the file format has them, no slice is found, whatever the types are and
  -- whether or not arm64 is among them: the parser succeeds and reports the number of entries with type
  -- and subtype 0. `types` are the numbers of the CPU types that the entries have; the condition is
  -- that the swapped bytes of CPU_TYPE_ARM64 are none of them.
  pub macho_info-network_order :
      (types : List ℕ)
      → Layout l
      → 4 ≤ len
      → len ≤ length image
      → {magic nfat : ℕ} → fh_magic ≡ 0
      → load32 image 0 ≡ some magic
      → IsFat l image len magic
      → load32 image fh_nfat_arch ≡ some nfat
      → sizeof_fat_header + ntohl nfat * sizeof_fat_arch ≤ len
      → AreNetworkOrder l image types (ntohl nfat)
      → is_among (ntohl l.cpu_type_arm64) types ≡ false
      → (info : MachoInfo)
      → macho_info l (some image) len (some info)
        ≡ some (parsed, some (fat_info l image len (ntohl nfat)))
  macho_info-network_order types y few h z e p g room b d info =
      let (status, left, runs, report) = macho_info_lem l image len y few h info in
      let (fine, same) = fat_only types d b z e p g room report in
      runs ∙ ap (λ s. some (s, some left)) fine ∙ ap (λ i. some (parsed, some i)) same
