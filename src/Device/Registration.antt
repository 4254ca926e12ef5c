-- ===== src/Device/Registration.antt =====
-- interface.c: `cc2520_interface_init` and `cc2520_interface_free`. The kernel's calls succeed or fail as
-- `Kernel` says; `kmalloc` gives bytes or nothing. The semaphores are left to `Device`.
use linux_cc2520_driver.Prelude.{
  Bool, true, false, not, ◌&&◌, Option, none, some, Buf, if◌then◌else◌,
}

-- A pointer that a call returns: null, an error that the kernel encodes in it, or an object.
pub data Answer : Type 0 where
  null err_ptr object : Answer

abbrev pub is_null : Answer → Bool
is_null null = true
is_null _ = false

abbrev pub is_object : Answer → Bool
is_object object = true
is_object _ = false

pub record Kernel : Type 0 where
  pub kmalloc_tx : Option Buf
  pub kmalloc_rx : Option Buf
  pub alloc_chrdev_region : Bool
  pub cdev_add : Bool
  pub class_create : Answer
  pub device_create : Answer

-- What is held, and `result`: whether it is 0.
pub record Setup : Type 0 where
  pub tx_buf_c : Option Buf
  pub rx_buf_c : Option Buf
  pub region : Bool
  pub cdev : Bool
  pub class : Bool
  pub device : Bool
  pub succeeded : Bool

abbrev pub unloaded : Setup
unloaded = record {
  tx_buf_c = none;
  rx_buf_c = none;
  region = false;
  cdev = false;
  class = false;
  device = false;
  succeeded = true;
}

-- The label `error`: both buffers are freed, and `result` is returned as it is.
release_buffers : Setup → Setup
release_buffers s = record s { tx_buf_c = none; rx_buf_c = none }

-- The steps of `cc2520_interface_init`, each with those that follow it. `class_create` and
-- `device_create` do not set `result`, and only null is taken for a failure of theirs.
create_device : Kernel → Setup → Setup
unfolding release_buffers
create_device k s =
    if is_null k.device_create
    then release_buffers s
    else record s { device = is_object k.device_create }

create_class : Kernel → Setup → Setup
unfolding release_buffers create_device
create_class k s =
    if is_null k.class_create
    then release_buffers s
    else create_device k (record s { class = is_object k.class_create })

add_cdev : Kernel → Setup → Setup
unfolding release_buffers create_class
add_cdev k s =
    if k.cdev_add
    then create_class k (record s { cdev = true; succeeded = true })
    else release_buffers (record s { succeeded = false })

alloc_region : Kernel → Setup → Setup
unfolding release_buffers add_cdev
alloc_region k s =
    if k.alloc_chrdev_region
    then add_cdev k (record s { region = true; succeeded = true })
    else release_buffers (record s { succeeded = false })

alloc_rx : Kernel → Option Buf → Setup → Setup
unfolding release_buffers alloc_region
alloc_rx k none s = release_buffers (record s { succeeded = false })
alloc_rx k (some buf) s = alloc_region k (record s { rx_buf_c = some buf })

alloc_tx : Kernel → Option Buf → Setup → Setup
unfolding release_buffers alloc_rx
alloc_tx k none s = release_buffers (record s { succeeded = false })
alloc_tx k (some buf) s = alloc_rx k k.kmalloc_rx (record s { tx_buf_c = some buf })

-- `cc2520_interface_init`
unfoldable pub interface_init : Kernel → Setup
unfolding alloc_tx
interface_init k = alloc_tx k k.kmalloc_tx unloaded

-- `cc2520_interface_free`, which does not look at what there is to free. `unregister_chrdev`, the counterpart
-- of `register_chrdev`, is given the device number `char_d_mm` where it expects a major number: the region
-- of `alloc_chrdev_region` stays.
unfoldable pub interface_free : Setup → Setup
unfolding release_buffers
interface_free s = release_buffers (record s { cdev = false; device = false; class = false })

abbrev pub is_some : Option Buf → Bool
is_some none = false
is_some (some buf) = true

-- What has been allocated
abbrev pub has_buffers : Kernel → Bool
has_buffers k = is_some k.kmalloc_tx && is_some k.kmalloc_rx

abbrev pub has_number : Kernel → Bool
has_number k = has_buffers k && k.alloc_chrdev_region

abbrev pub has_cdev : Kernel → Bool
has_cdev k = has_number k && k.cdev_add

-- Whether neither of the last two steps answers null
abbrev pub passes : Kernel → Bool
passes k = has_cdev k && (not (is_null k.class_create) && not (is_null k.device_create))
