-- ===== src/Xenclient/Tests.antt =====
-- The theorems on disk names and PCI addresses at some of them.
use krata.Prelude.{ℕ, ◌≡◌, refl, none, some, ◌++◌, List}
use krata.Prelude.Text.{bytes}
use krata.Xenclient.DiskName.{
  suffix, disk_name, reversed, vbd_blkidx_to_disk_name, Spells, vbd_blkidx_to_disk_name_lem,
}
use krata.Xenclient.Pci.{PciBdf, encode}

-- The disks 0, 25, 26 and 702 are xvda, xvdz, xvdaa and xvdaaa.
names_0 : vbd_blkidx_to_disk_name 0 ≡ some (bytes "xvda")
unfolding vbd_blkidx_to_disk_name suffix disk_name reversed
names_0 = refl

names_25 : vbd_blkidx_to_disk_name 25 ≡ some (bytes "xvdz")
unfolding vbd_blkidx_to_disk_name suffix disk_name reversed
names_25 = refl

names_26 : vbd_blkidx_to_disk_name 26 ≡ some (bytes "xvdaa")
unfolding vbd_blkidx_to_disk_name suffix disk_name reversed
names_26 = refl

names_702 : vbd_blkidx_to_disk_name 702 ≡ some (bytes "xvdaaa")
unfolding vbd_blkidx_to_disk_name suffix disk_name reversed
names_702 = refl

vbd_blkidx_to_disk_name_lem_example :
    (letters : List ℕ) × (vbd_blkidx_to_disk_name 702 ≡ some (bytes "xvd" ++ reversed letters))
    × Spells 702 letters
vbd_blkidx_to_disk_name_lem_example = vbd_blkidx_to_disk_name_lem 702

abbrev network_card : PciBdf
network_card = record { domain = some 1; bus = 3; device = 31; function = 7; vdefn = none }

word : encode network_card ≡ 66559
unfolding encode
word = refl
