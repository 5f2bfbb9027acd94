-- ===== src/Lib.antt =====
-- Verification of the control core of Taproot, the robot library that this repository holds.
--
-- The program. Robot code derives subsystems and commands from two base classes. A command scheduler
-- decides which commands run: a command names the subsystems it needs as a 64-bit bitmap, adding a
-- command interrupts the ones that share a subsystem with it, and each `run` executes the commands that
-- are scheduled, refreshes the subsystems and starts their default commands. The remote control is
-- turned into additions and removals by command mappings. Some commands are made of other commands.
--
-- Files, and the code they are about (src/tap/... is the path from the repository's root).
--   Prelude, Bits          Booleans, lists over native numbers, signed integers, 64-bit bitmaps by their bits, and
--                          the laws of exclusive or and of fields of bits side by side.
--   Registry               the static registrars: constructCommand, constructSubsystem, destructCommand and
--                          destructSubsystem of src/tap/control/command_scheduler.cpp. The two pairs have
--                          the same code, and are one definition. Slots and Laws hold its lemmas.
--   Iterator               CommandIterator and SubsystemIterator of the same file, with begin and end; also
--                          one definition for both. `for_each` is the `for` loop over one of them. Scan has
--                          the rule for loops.
--   Objects                the virtual methods of Command and Subsystem (src/tap/control/command.hpp and
--                          subsystem.hpp), which robot code defines: a record that is a parameter of all that
--                          calls them. `W` is the state of all these objects together. They do not call the
--                          scheduler back.
--   BaseClasses            the members of Command and Subsystem that are not virtual, of command.cpp and
--                          subsystem.cpp there; the width of an `unsigned long` is a parameter.
--   Scheduler              CommandScheduler: its members are the record `Scheduler`; Commands has addCommand
--                          and removeCommand, Subsystems registerSubsystem, Run has `run`, HardwareTests the
--                          hardware tests and the counts. `errors` lists what RAISE_ERROR was called with.
--                          Invariant says what holds between calls, and its children prove that every call
--                          keeps it; Reach is a step relation of all calls in any order, with anything
--                          happening to the objects between them; Effects says which virtual methods a loop
--                          calls, in which order, for `run` and addCommand; Defaults is about the default
--                          commands that a run starts; Masters is about constructing and destructing schedulers.
--   RemoteMapState         src/tap/control/remote_map_state.cpp.
--   Mapping                src/tap/control/command_mapping.cpp and the press, hold, hold_repeat and toggle
--                          mappings beside it; Mapper is command_mapper.cpp. They use the scheduler through
--                          the record `SchedulerMethods`. Edges is about histories of the remote, Vector about
--                          the vector of commands.
--   Composite              sequential_command.hpp, concurrent_command.hpp and the two commands of
--                          src/tap/control/governor.
--   Can                    CanRxHandler of src/tap/communication/can/can_rx_handler.cpp: the pointers of the bins
--                          and the `next` members of the listeners are maps from addresses. Chains reads a
--                          bin as a list; Attach, Process and Remove are about the operations.
--   Timers                 timeout.hpp, conditional_timer.hpp and periodic_timer.hpp of src/tap/architecture;
--                          each reading of the clock is an argument. The files ending in Laws hold the proofs.
--   ErrorController        the list of errors of src/tap/errors/error_controller.cpp. The deque of modm is a
--                          parameter, with what the code relies on as its laws. Rotate is about removing an
--                          error, Laws about adding and clearing.
--   Motors                 src/tap/motor/dji_motor_tx_handler.cpp, with the members of the motors of dji_motor.cpp.in
--                          that sending uses. Output is about what a motor writes to a message, Stores and Calls
--                          about adding and removing motors, Frames about the messages of a bus, and Sending about
--                          which of them the CAN driver, a parameter, is given.
--   Crc                    src/tap/algorithms/crc.cpp, with its two tables. Shifts and Bitwise have the bitwise
--                          definition of the checksums, Errors and Detect what they detect.
--   Serial                 the receiver of src/tap/communication/serial/dji_serial.cpp.in and the messages of
--                          dji_serial.hpp, as bytes; it uses Crc. The UART and the callback are parameters. Buffer,
--                          Frames, Reads and Messages are about the bytes of a message, Invariant and Steps about
--                          what holds between calls, Receive and Delivery about a message that arrives whole.
--   Referee                the damage of the last second and the status messages of
--                          src/tap/communication/serial/ref_serial.cpp, over the messages of Serial and a deque like
--                          that of ErrorController. Window has the events as a list, Hits and Damage compare the two.
--                          Robots is about the two teams and the handlers of messages between robots.
--   Remote                 src/tap/communication/serial/remote.cpp. The UART, the clock and the command mapper are
--                          parameters. Packet describes the packets from the sender's side; Read and Silence are
--                          about the method `read`.
--   Scroll                 src/tap/display/vertical_scroll_logic_handler.cpp. Window has the menu in plain numbers,
--                          Resize is about setSize and all inputs together.
--   Setpoint               the unjam and move commands of src/tap/control/setpoint/commands and the ramp of
--                          src/tap/algorithms/ramp.cpp, over any type with the operations on floats that they use,
--                          and a subsystem that is a parameter. Cleared and Rounds are about UnjamCommand, Waiting
--                          is about MoveCommand.
--   Examples               a small robot, and runs of the definitions on it.
--
-- Correspondence. A method takes the state of its object last and returns the new one. A pointer is a
-- number, its address, and the null pointer is `none`; a call through a null pointer sets
-- `null_dereferenced`. Bitmaps are natural numbers; the complement and the shift are those of 64 bits,
-- and their bounds are part of the invariant. A `modm_assert` that fails is the result
-- `failed`, or `none` where the rest of the constructor is all there is to it.
--
-- Bounds and fuel. The loop over an iterator has one unit of fuel more than there are indices below the
-- registrar's maximal index; each round moves to a higher index, so the fuel is never used up. The
-- search of `operator++` recurses on the number of indices left. The loops over a chain of
-- listeners have fuel, and more than the length of the chain is enough; the loop of a periodic
-- timer has fuel, and more than the time since the last expiry is enough; so has the loop that clears the
-- errors, and more than their number is enough, and the one that takes old damage off, for which 21
-- is enough. The search of the serial receiver for a head byte has
-- fuel, and more than the number of bytes in front of one is enough. All else is recursion on lists.
--
-- Time. Where the clock is part of a world, it does not move on during a call unless the world changes;
-- the timers of the setpoint commands read it that way.
--
-- Not modelled. Names and other texts, and drivers, which only reach the scheduler and the error
-- messages. Commands that call the scheduler from their own methods, among them the comprised setpoint
-- commands. Floating point code whose meaning is in the floats (filters, motor control, transforms,
-- odometry), hardware access, displays and terminals, the other messages of the referee
-- system, and the feedback of the motors. The code of modm and of the generated board files is not part of the repository.
pub mod Prelude
pub mod Bits
pub mod Registry
pub mod Iterator
pub mod Objects
pub mod BaseClasses
pub mod Scheduler
pub mod RemoteMapState
pub mod Mapping
pub mod Composite
pub mod Can
pub mod Timers
pub mod ErrorController
pub mod Motors
pub mod Crc
pub mod Serial
pub mod Referee
pub mod Remote
pub mod Scroll
pub mod Setpoint
pub mod Examples
