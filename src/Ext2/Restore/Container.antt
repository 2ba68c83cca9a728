-- ===== src/Ext2/Restore/Container.antt =====
-- Assignment4: the walks to the containing directory of ext2_rm.c and of ext2_restore.c.
use csc369_operating_systems.Ext2.Remove
use csc369_operating_systems.Ext2.Restore
