-- ===== src/Xenclient/Tx/Tests.antt =====
-- Transactions over a store in memory.
use krata.Xenclient.Tx.Configs.{vdev_of}
use krata.Xenclient.Tx.Configs.Numbers.{vdev_of-apart}
use krata.Prelude.{◌+◌, ◌≤◌, leb, true, false, [], ◌∷◌, arith, if◌then◌else◌}
use krata.Xenclient.DevAlloc.{DeviceIdAllocator}
use krata.Xenclient.DevAlloc.BitVec.{bits}
use krata.Xenclient.Tx.{XenTransaction}

abbrev fresh : DeviceIdAllocator bits
fresh = record { states = record { size = 4096; bit = λ _. false }; cursor = 7 }

abbrev transaction_with : DeviceIdAllocator bits → XenTransaction bits
transaction_with a = record {
  frontend_domid = 3;
  frontend_dom_path = 47 ∷ 100 ∷ [];
  backend_domid = 0;
  backend_dom_path = 47 ∷ 98 ∷ [];
  blkalloc = fresh;
  devalloc = a;
  tx = 1;
  abort = true;
}

-- Disk 5 is the last of the first six.
vdev_of-apart_example : (vdev_of 5).0 + (if leb 5 5 then 16 else 256) ≤ (vdev_of 6).0
vdev_of-apart_example = vdev_of-apart 5 6 (omega arith)
