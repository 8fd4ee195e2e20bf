-- ===== src/Runner/Parts/Booting.antt =====
-- builtin/vmrun.go: the boot loader that `buildVZConfigFromDir` chooses.
use weft_driver_vz.Common.{
  ◌≡◌, refl, Bool, true, false, ◌&&◌, Option, none, some, [], ◌∷◌, if◌then◌else◌, Bytes, codes,
}
use weft_driver_vz.Golang.FilePath.{join}
use weft_driver_vz.Os.Tree.{Tree, Node}
use weft_driver_vz.Os.Calls.{Host, Answer, ok, err, stat}
use weft_driver_vz.Runner.Machine.{Boot, efi, linux, linux_boot_loader, Virtualization}
use weft_driver_vz.Runner.Parts.{found, given, when, command_line}
use weft_driver_vz.Runner.Parts.Steps.{boot_of, is_direct}
use weft_driver_vz.Runner.Parts.Disks.{is_there}

-- The command line of config.json, or the default one.
abbrev line_of : Bytes → Bytes
line_of [] = codes "console=hvc0 root=/dev/vda2 rw"
line_of (c ∷ s) = c ∷ s

-- A kernel in the directory whose loader the framework makes, with the command line and with the RAM
-- disk if there is one, or else EFI.
abbrev pub booted : Virtualization → Host → Bytes → Bytes → Tree → Boot
booted z h dir cmdline t =
    let kernel = join dir (codes "kernel") in
    let initrd = join dir (codes "initrd") in
    let ram : Option Bytes = if is_there (stat h initrd t) then some initrd else none in
    if is_there (stat h kernel t)
      && given (z.refusal (linux_boot_loader kernel (line_of cmdline) ram) t)
    then linux kernel (line_of cmdline) ram
    else efi (join dir (codes "nvram.bin"))

command_line-line_of : (cmdline : Bytes) → command_line cmdline ≡ line_of cmdline
unfolding command_line
command_line-line_of [] = refl
command_line-line_of (c ∷ s) = refl

found-is_there : (a : Answer Node) → found a ≡ is_there a
found-is_there (ok n) = refl
found-is_there (err e) = refl

when-some : (b : Bool) (p : Bytes) → when b p ≡ (if b then some p else none)
when-some true p = refl
when-some false p = refl

pub boot_of-booted :
    (z : Virtualization) (h : Host) (dir cmdline : Bytes) (t : Tree)
    → boot_of z h (is_direct z h dir cmdline t) dir cmdline t ≡ booted z h dir cmdline t
boot_of-booted z h dir cmdline t =
    rw
      (
        command_line-line_of cmdline,
        found-is_there (stat h (join dir (codes "initrd")) t),
        found-is_there (stat h (join dir (codes "kernel")) t),
        when-some (is_there (stat h (join dir (codes "initrd")) t)) (join dir (codes "initrd")),
      )
      refl
