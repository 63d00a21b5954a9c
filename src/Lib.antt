-- ===== src/Lib.antt =====
-- The kernel of mikanos_copy, a small operating system for 64-bit PCs, modelled after its C++
-- sources under Kernel/.
--
-- Parts and files. A physical page is a frame of 4 KiB; `Memory` models
-- Kernel/memory_manager.hpp, Kernel/memory_manager.cpp and Kernel/memory_map.hpp
-- (`BitmapMemoryManager::Allocate` is `allocate`, `Free` is `free`, `SetBit` is `set_bit`, and
-- so on). `Queue` models the template of Kernel/queue.hpp, `Error` Kernel/error.hpp, `Message`
-- Kernel/message.hpp, `Task` and `TaskManager` Kernel/task.hpp and Kernel/task.cpp, with the
-- names of the methods in snake_case. `Timer` models Kernel/timer.hpp and Kernel/timer.cpp over
-- any priority queue with the laws of `Timer.Queue.TimerQueue`, which `Timer.ListQueue` fills.
-- `Graphics` models the points, rectangles and loops of Kernel/graphics.hpp and
-- Kernel/graphics.cpp. `Layer` models the order of the layers of Kernel/layer.hpp and
-- Kernel/layer.cpp, without the drawing. `Fat` models the chains of clusters, the directories and
-- `FindFile` of Kernel/fat.hpp and Kernel/fat.cpp. `Paging` models the page tables that
-- Kernel/paging.hpp and Kernel/paging.cpp make and free at run time: a table is the number of its
-- frame, taken from the frame allocator of `Memory`. `Pci` models the addresses, the scan of the
-- buses and the set-up of message signalled interrupts of Kernel/pci.hpp and Kernel/pci.cpp. `Usb`
-- models the memory pool of Kernel/usb/memory.cpp (`Usb.Pool`), the map of Kernel/usb/arraymap.hpp
-- (`Usb.ArrayMap`), the command ring of Kernel/usb/xhci/ring.cpp (`Usb.Ring`) and the phases of the
-- ports of Kernel/usb/xhci/xhci.cpp (`Usb.Xhci`: an event takes a port on, a command is put in a list);
-- `Usb.Descriptor`, `Usb.Setup` and `Usb.Device` model how a device of Kernel/usb/device.cpp and its
-- driver of Kernel/usb/classdriver/hid.cpp are initialised, and `Usb.Hid` what a keyboard or mouse sends.
-- `FrameBuffer` models `Copy` and `Move` of Kernel/frame_buffer.cpp on bytes. `Terminal` models
-- the cursor, the line editor, the history and the arguments of programs of Kernel/terminal.hpp and
-- Kernel/terminal.cpp, `Elf` the loader of Kernel/elf.hpp and Kernel/elf.cpp, `Acpi` the tables and
-- the timer of Kernel/acpi.hpp and Kernel/acpi.cpp, and `Console` the buffer of Kernel/console.hpp
-- and Kernel/console.cpp.
-- `Common` holds what they share: lists measured by native numbers, tests, integers, and the bits
-- and fields of a word.
--
-- How they interact. An error is a value beside the result. A method that changes its object
-- takes the record and returns the new one. A pointer to a task or a layer is its number. What
-- the processor does at a switch of tasks is a value of `TaskManager.Resume`: it returns to the
-- running code, or loads a context. The pages of a new task's stack, control registers and the
-- context that an interrupt saved are arguments.
--
-- Numbers. `size_t` and `uint64_t` are native numbers with the wrap-around written out
-- (`Common.add64`); bits are read and written by `bit_and` and `bit_or` on words of 64 bits. An
-- `int` that can be negative is an integer (`Common.Int`), whose sums are taken to stay in
-- range.
--
-- Loops. Counted loops recur on the rounds that are left. The outer loop of `Allocate` has fuel,
-- the number of frames of the range and one more, and `Memory.Alloc.allocate-Outcome` shows that
-- it never runs out. The loop of `TimerManager::Tick` has the number of timers and one more,
-- which is enough by `Timer.Tick.tick-Ticking`. That of `LoadFile` needs more rounds than the
-- chain has clusters, as `Fat.Chain.load_file-contents` shows; on a chain with a cycle the code
-- may read until the buffer is full. `FindFile` walks such a chain too (`Fat.Find`). A loop of
-- `SetupPageMap` has 513 rounds, one more than a table has entries, enough by
-- `Paging.Setup.setup_page_maps-SetUp`. The scan of the buses has fuel for the depth of bridges;
-- `Pci.Scan.scan_all_bus-Scanned` gives a sufficient one. The search for capabilities of a device
-- has fuel as well, since the list may be a cycle. The loop over the words of a line has one round
-- more than the line has characters, enough by `Terminal.Args.Words.make_arg_vector_rests`. The loops of
-- `InitializePhase2` have fuel, enough when it is more than there are descriptors, as
-- `Usb.Device.Starting.start_initialize_lem` shows; a descriptor without a length stops them. A loop of
-- `WaitMilliseconds` has fuel for more reads than a timer has values, which
-- `Acpi.Wait.wait_milliseconds_long_enough` shows to be enough.
--
-- Not modelled. Windows and their drawing, output to devices, the assembly routines, the identity map
-- that the boot sets up, system calls, keyboard and mouse, interrupts and segments, the registers and
-- contexts of the USB controller, the boot loader, and the programs under apps/. What the commands of a terminal do that
-- are neither `echo` nor `clear` is an argument of `Terminal.input_key`, and so are the answers of
-- configuration space in `Pci`. The undefined cases of the C++ (a read past the end of an array,
-- `front` of an empty container) are given a fixed result, and the theorems keep away from them.
pub mod Acpi
pub mod Common
pub mod Console
pub mod Elf
pub mod Error
pub mod Fat
pub mod FrameBuffer
pub mod Graphics
pub mod Layer
pub mod Memory
pub mod Message
pub mod Paging
pub mod Pci
pub mod Queue
pub mod Task
pub mod TaskManager
pub mod Terminal
pub mod Timer
pub mod Usb
