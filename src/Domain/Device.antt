-- ===== src/Domain/Device.antt =====
-- internal/domain/types.go: the device names.
use plantops_edge_scale.Domain.Types.{DeviceId}

abbrev pub scale : DeviceId
scale = "SCALE"

abbrev pub rfid : DeviceId
rfid = "RFID"

abbrev pub lpr : DeviceId
lpr = "LPR"

abbrev pub entry_sensor : DeviceId
entry_sensor = "ENTRY_SENSOR"

abbrev pub front_sensor : DeviceId
front_sensor = "FRONT_SENSOR"

abbrev pub rear_sensor : DeviceId
rear_sensor = "REAR_SENSOR"

abbrev pub exit_sensor : DeviceId
exit_sensor = "EXIT_SENSOR"

abbrev pub entry_barrier : DeviceId
entry_barrier = "ENTRY_BARRIER"

abbrev pub exit_barrier : DeviceId
exit_barrier = "EXIT_BARRIER"

abbrev pub physical_safety : DeviceId
physical_safety = "PHYSICAL_SAFETY"

abbrev pub remote_io : DeviceId
remote_io = "REMOTE_IO"

abbrev pub audit_store : DeviceId
audit_store = "AUDIT_STORE"
