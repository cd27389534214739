-- ===== src/Lib.antt =====
-- A model of the parts of SmartEth that make a guest and its network card talk: the QEMU device
-- (firmware/qemu-dev/smarteth_pci.c), the bridge device that forwards to a SystemC process
-- (firmware/qemu-dev/smarteth_sc_bridge.c with sc_protocol.h), that process itself
-- (sim/systemc/src), the Linux driver (firmware/host-driver/driver/smarteth_main.c), the firmware's
-- PCIe code (firmware/rtos/pci_test.c with pci_test.h), and parts of its C library and console
-- (firmware/rtos/libc_supp.c, firmware/bsp/uart.c).
--
-- A guest reaches the card's registers either in the QEMU device or, through the bridge and its socket,
-- in the SystemC process, which reads and writes guest memory back through the same socket. The
-- Linux driver and the firmware are clients of those registers. The models meet in three places:
-- PciTest/Suite/Board.antt runs the firmware's tests on the QEMU device, Driver/Irq/OnDevice.antt
-- the driver on it, and Sim/PcieBridge/Wired.antt joins the two ends of the socket.
--
-- Device.antt models smarteth_pci.c: `mmio_read` and `mmio_write` are smarteth_mmio_read and
-- smarteth_mmio_write, with one function for each case of the switch (`write_ctrl`,
-- `write_irq_sts`, `write_dma_ctrl`, `write_irq_test`); `start_dma`, `dma_timer_cb` and `raise_irq`
-- are the functions of these names, `realize` is instance_init and realize of an object whose MSI-X
-- set-up succeeds. The state is the record `SmartEth`; the calls into QEMU's interrupt code are
-- recorded in `events`. Guest memory with pci_dma_read and pci_dma_write is the parameter `Bus`. Its
-- children are named for what they prove: Registers, Interrupts, Engine and Transfer (a transfer
-- from its register writes to its end), Invariant and Reset.
--
-- PciTest.antt models pci_test.c over a parameter `Machine`, a board with 32-bit loads and stores,
-- the delay and the console. PciTest/Config.antt has the ECAM accessors pci_config_*, PciTest/Scan.antt
-- smarteth_pci_scan with its loop and the parts of its body, PciTest/Suite.antt the tests and
-- smarteth_run_tests. PciTest/Suite/Board.antt is a `Machine` that carries the device of
-- Device.antt, so that the firmware's tests run against the device's handlers. What the scan needs
-- of a PCI bus is the record `ConfigBus` in PciTest/Scan/Slots.antt.
--
-- Bridge.antt models the handlers of smarteth_sc_bridge.c: a blocking read is `mmio_read_start` and
-- `mmio_read_end`, before and after the wait on the condition variable; `handle_msg` is
-- sc_bridge_handle_msg, where `none` is a read beyond the end of a message. Bridge/Wire.antt has the
-- packed messages of sc_protocol.h as bytes, Bridge/Socket.antt the loops send_all and recv_all
-- against a list of the kernel's answers, with what failed sends leave on the wire (`transmit`),
-- Bridge/Thread.antt sc_bridge_io_thread, Bridge/Lifecycle.antt realize, exit and instance_init, and
-- Bridge/Waiting.antt the interleavings of the guest's read with the I/O thread as a step relation.
--
-- Libc.antt models firmware/rtos/libc_supp.c, memset, memcpy and memcmp over a memory of bytes.
-- Uart.antt models of firmware/bsp/uart.c what is sent for a string (`putc`, `puts`) and the printing
-- of numbers: `puthex` is uart_puthex, `hex_loop` the loop of the %x and %lx cases of uart_printf,
-- `dec_tmp` the digits in `tmp` of its decimal cases, for which 20 rounds of fuel are enough.
-- Uart/Format.antt is the loop of uart_printf over its format, with the buffer and the arguments;
-- Uart/Format/Numerals.antt has the numerals that its numbers are compared with.
--
-- Sim.antt is the SystemC process, with a module for each class: Sim/RegBlock.antt, Sim/DmaEngine.antt,
-- Sim/PktProc.antt, Sim/Nic.antt and Sim/PcieBridge.antt, and Sim/Protocol.antt for protocol.h. What
-- the NIC asks of its bridge and its network interface is the record `Link`, over a state of the
-- host; Sim/Host.antt is a host that answers at once. A SystemC process is a function for one
-- activation, `process_dma` and `poll_irq`. Of process_tx, Sim/Nic/Tx.antt has the rounds of its inner
-- loop, each up to the wait at its end (`tx_round`), and Sim/Nic/Tx/Process.antt a step relation with
-- that wait and the mutex held over it, beside poll_irq and the guest's accesses.
-- Sim/Nic/Descriptors.antt says which flags a descriptor is handed back with.
-- Sim/Nic/Rx.antt is on_packet_rx. In Sim/PcieBridge.antt the blocking dma_read is `dma_read_start`
-- and `dma_read_end`, before and after its wait; Sim/PcieBridge/Thread.antt is socket_thread, where
-- a round has the kernel's answers and what an unfilled header held; its child `Delivery` starts
-- from QEMU's sends. `Wired` has QEMU's bridge handle each request before the next.
--
-- Driver.antt is the Linux driver: its adapter, what it holds of the kernel (`Held`), and the
-- registers behind the record `Mmio`. Driver/Buffers.antt has the receive buffers,
-- Driver/Probe.antt smarteth_probe from its last label to its first step and smarteth_remove,
-- Driver/Irq.antt the interrupt handler and the completion, Driver/SelfTest.antt the tests behind
-- the file in sysfs. A function of the kernel is its answer, which is an argument.
--
-- Base.antt has the shared names, lists, machine words, and the lemmas on bits and masks. Words are
-- native numbers with their wrap-around written out (`u32` is `% 2 ^ 32`). Loops are structural: the
-- scan counts its 32 slots, the poll its 500 rounds, the socket loops the kernel's answers, of which
-- as many as there are bytes are enough.
--
-- Bsp.antt is the board support of the firmware: firmware/bsp/plic.c and clint.c, and the handler
-- of external interrupts in firmware/rtos/main.c, over the record `Board` of loads and stores.
-- Bsp/Plic.antt is about the enable bits and the handler. Uart/Port.antt has the registers of the UART,
-- where a loop that polls takes fuel, and Uart/Port/Line.antt a transmitter for which a bound on the
-- looks at its status is enough.
--
-- Firmware.antt is firmware/rtos/main.c: a task is a round of its loop, FreeRTOS the record `Kernel`;
-- Firmware/PciTask.antt joins the scan and the suite, Firmware/Hello.antt is
-- firmware/baremetal/hello/hello.c.
--
-- Sim/NetIf.antt is net_if.cpp, with its thread in Sim/NetIf/Listener.antt, and Sim/Main.antt sc_main of
-- main.cpp. Sim/PcieBridge/Locking.antt is a step relation for the mutex g_reg_mtx of nic.cpp, between a
-- thread that waits in dma_read and the socket thread. Device/Identity.antt has the ids by which
-- the QEMU devices and their drivers know each other.
--
-- Not modelled: the scheduling of FreeRTOS and of SystemC, and what is between two rounds of a task;
-- QEMU's class registration beyond the ids; the mutexes' life time and the socket files; simulated
-- time but for the delays that a process returns and the waits of Sim/Nic/Tx/Process.antt; the log lines of QEMU and of the simulation.
pub mod Base
pub mod Device
pub mod PciTest
pub mod Bridge
pub mod Libc
pub mod Uart
pub mod Sim
pub mod Driver
pub mod Bsp
pub mod Firmware
