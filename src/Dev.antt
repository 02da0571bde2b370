-- ===== src/Dev.antt =====
-- The devices of kernel_dev.c and kernel_dev.h, and the calls of kernel_streams.c that open them. The serial
-- ports of bios.c are a parameter.
pub mod Serial
mod Tests
use tinyos.Base.{
  ℕ, zero, suc, ◌+◌, ◌-◌, ◌≡◌, List, [], ◌∷◌, ◌++◌, Bool, true, false, not, Option, none, some,
  ◌==◌, ltb, leb, if◌then◌else◌, update, length, is_nil,
}
use tinyos.Base.Int.{ℤ, pos, minus_one}
use tinyos.Sched.{Sched}
use tinyos.Cc.{CondVar, cond_broadcast, KernelLock, kernel_wait_wchan}
use tinyos.Sched.{no_timeout}
use tinyos.Streams.{Files, fcb_reserve, open_stream}

pub data DeviceType : Type 0 where
  dev_null dev_serial : DeviceType

-- The stream that `nulldev_read` gives: the value and the buffer.
unfoldable pub nulldev_read : (size : ℕ) → ℤ × List ℕ
nulldev_read size = (pos size, zeros size)
  where
    zeros : ℕ → List ℕ
    zeros zero = []
    zeros (suc n) = 0 ∷ zeros n

unfoldable pub nulldev_write : List ℕ → ℤ
nulldev_write buf = pos (length buf)

unfoldable pub nulldev_close : ℤ
nulldev_close = pos 0

unfoldable pub nulldev_open : (minor : ℕ) → Option ℕ
nulldev_open minor = none

-- `serial_dcb_t`, without the spinlock, which is not used.
pub record SerialDcb : Type 0 where
  pub devno : ℕ
  pub rx_ready : CondVar

-- The serial ports of the machine: `bios_read_serial` gives a byte or fails, `bios_write_serial`
-- tells whether it took the byte.
pub record SerialPorts (World : Type 0) : Type 0 where
  pub read_serial : (devno : ℕ) → World → Option ℕ × World
  pub write_serial : (devno byte : ℕ) → World → Bool × World

-- What a serial call comes to: it returns the count, or it sleeps for input, or it yields and tries again.
pub data SerialRead (World : Type 0) : Type 0 where
  returned : ℤ → List ℕ → World → SerialRead World
  waits : World → SerialRead World

pub data SerialWrite (World : Type 0) : Type 0 where
  returned : ℤ → World → SerialWrite World
  yields : World → SerialWrite World

module _ {World : Type 0} (bios : SerialPorts World) where
  -- The loop of `serial_read`, with the number of bytes still wanted and those read so far.
  unfoldable pub read_bytes : (devno left : ℕ) → List ℕ → World → SerialRead World
  read_bytes devno zero out w = SerialRead.returned (pos (length out)) out w
  read_bytes devno (suc left) out w =
      let (o, w') = bios.read_serial devno w in
      elim o [
        | some c ↦ read_bytes devno left (out ++ (c ∷ [])) w'
        | none ↦
            if is_nil out
            then SerialRead.waits w'
            else SerialRead.returned (pos (length out)) out w'
      ]

  unfoldable pub serial_read : SerialDcb → (size : ℕ) → World → SerialRead World
  unfolding read_bytes
  serial_read dcb size w = read_bytes dcb.devno size [] w

  -- The loop of `serial_write`, with the bytes that are left and the count.
  unfoldable pub write_bytes : (devno count : ℕ) → List ℕ → World → SerialWrite World
  write_bytes devno count [] w = SerialWrite.returned (pos count) w
  write_bytes devno count (c ∷ buf) w =
      let (taken, w') = bios.write_serial devno c w in
      let more = write_bytes devno (count + 1) buf w' in
      if taken
      then more
      else if count == 0
      then SerialWrite.yields w'
      else SerialWrite.returned (pos count) w'

  unfoldable pub serial_write : SerialDcb → List ℕ → World → SerialWrite World
  unfolding write_bytes
  serial_write dcb buf w = write_bytes dcb.devno 0 buf w

unfoldable pub serial_close : ℤ
serial_close = pos 0

-- The device table: how many devices there are of each type, and the blocks of the serial ones.
pub record Devices : Type 0 where
  pub devnum : DeviceType → ℕ
  pub serial_dcb : ℕ → SerialDcb

-- The loop of `initialize_devices` over the serial devices, from `i` on.
unfoldable pub initialize_dcbs : (rounds i : ℕ) → (ℕ → SerialDcb) → ℕ → SerialDcb
initialize_dcbs zero i dcb = dcb
initialize_dcbs (suc n) i dcb =
    let c = dcb i in
    let cv = c.rx_ready in
    initialize_dcbs n (i + 1)
      (update dcb i (record { devno = i; rx_ready = record cv { waitset = [] } }))

unfoldable pub initialize_devices : (serial_ports : ℕ) → Devices → Devices
unfolding initialize_dcbs
initialize_devices serial_ports d = record {
  devnum = λ t. elim t [ dev_null ↦ 1 | dev_serial ↦ serial_ports ];
  serial_dcb = initialize_dcbs serial_ports 0 d.serial_dcb;
}

-- The loop of `serial_rx_handler`, which wakes all readers of all serial devices.
unfoldable pub wake_readers : (rounds i : ℕ) → Devices → Sched → Devices × Sched
wake_readers zero i d s = (d, s)
wake_readers (suc n) i d s =
    let c = d.serial_dcb i in
    let (cv, s') = cond_broadcast c.rx_ready s in
    wake_readers n (i + 1)
      (record d { serial_dcb = update d.serial_dcb i (record c { rx_ready = cv }) }) s'

unfoldable pub serial_rx_handler : (serial_ports : ℕ) → Devices → Sched → Devices × Sched
unfolding wake_readers
serial_rx_handler serial_ports d s = wake_readers serial_ports 0 d s

-- `Open` of a device; `none` is the failed assertion of `serial_open`. A stream object is named by the number
-- of its block.
unfoldable pub open_device : (serial_ports : ℕ) → DeviceType → (minor : ℕ) → Option (Option ℕ)
unfolding nulldev_open
open_device serial_ports dev_null minor = some (nulldev_open minor)
open_device serial_ports dev_serial minor =
    if ltb minor serial_ports then some (some minor) else none

-- `device_open`: `none` for -1, and what `Open` gives, with the operations of the type.
unfoldable pub device_open :
    {Ops : Type 0}
    → (serial_ports : ℕ) → (dev_fops : DeviceType → Ops) → Devices
    → DeviceType
    → (minor : ℕ) → Option (Option (Option ℕ × Ops))
unfolding open_device
device_open serial_ports dev_fops d major minor =
    let opened = open_device serial_ports major minor in
    if leb (d.devnum major) minor
    then none
    else some (elim opened [ none ↦ none | some obj ↦ some (obj, dev_fops major) ])

unfoldable pub device_no : DeviceType → Devices → ℕ
device_no major d = d.devnum major

-- `sys_GetTerminalDevices`
unfoldable pub sys_get_terminal_devices : Devices → ℕ
unfolding device_no
sys_get_terminal_devices d = device_no dev_serial d

module _ {Ops World : Type 0} (serial_ports : ℕ) (dev_fops : DeviceType → Ops) where
  -- `open_stream` of a device; `none` is the failed assertion, which needs a reserved FCB.
  unfoldable pub open_device_stream :
      Devices → DeviceType → (minor p : ℕ) → Files Ops World → Option (ℤ × Files Ops World)
  unfolding device_open open_stream
  open_device_stream d major minor p s = elim (device_open serial_ports dev_fops d major minor) [
    | none ↦ open_stream none p s
    | some none ↦ elim (fcb_reserve p 1 s).0 [ none ↦ open_stream none p s | some _ ↦ none ]
    | some (some o) ↦ open_stream (some o) p s
  ]

  unfoldable pub sys_open_null : Devices → (p : ℕ) → Files Ops World → Option (ℤ × Files Ops World)
  unfolding open_device_stream
  sys_open_null d p s = open_device_stream d dev_null 0 p s

  unfoldable pub sys_open_terminal :
      Devices → (termno p : ℕ) → Files Ops World → Option (ℤ × Files Ops World)
  unfolding open_device_stream
  sys_open_terminal d termno p s = open_device_stream d dev_serial termno p s
