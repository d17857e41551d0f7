-- ===== src/Tests/Drive.antt =====
-- Requests of kernel/src/drivers/storage/mod.rs.
use maram_os.Base.{[]}
use maram_os.Storage.Gpt.{Partition, efi, zero_guid}
use maram_os.Storage.Drive.{read_request, write_request, zero_request}
use maram_os.Storage.Drive.Bounds.{Within, requests-Within}

abbrev partition : Partition
partition = record { start = 40; size_blocks = 61; name = []; type_ = efi; guid = zero_guid }

requests-Within_example :
    Within partition 3 5 (read_request partition 3 5)
    × Within partition 3 5 (write_request 512 partition 3 5 1)
    × Within partition 3 5 (zero_request partition 3 5)
requests-Within_example = requests-Within 512 partition 3 5 1
