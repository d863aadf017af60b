-- ===== src/Lib.antt =====
-- Models and proofs for ts_cRIOcpp, the C++ library of the Compact RIO controllers of the Rubin
-- Observatory (include/ and src/ of the repository).
--
-- A program of the library talks to inner loop controllers (ILC) over Modbus. It calls methods of a bus
-- list, each of which queues a command: the bytes of a Modbus frame in a Buffer, and a time to wait.
-- FPGA::ilcCommands turns the queue into words of a command FIFO, and hands each frame of the response
-- to BusList::parse. That compares it with the command it expects, and calls back the handler of its
-- function, which reads the frame through a Parser, checks the CRC and reports the values to a virtual
-- method of the program. MPU is a bus list with a cache of registers; IntelHex and PrintILC load
-- firmware into the controllers over the same bus. ModbusBuffer is the older interface to the bus, in
-- which the frames of many calls are words of one buffer; SimulatedILC fills its virtual methods, and
-- PrintILC takes a CRC with it. ControllerThread runs tasks at their times, in a Thread that a client
-- starts and stops, and CliApp commands that are typed; those of FPGACliApp queue commands on the buses
-- and let FPGA::ilcCommands send them. A Transport sends the commands of a bus list over a serial line,
-- and hands the replies to it. PID is a discrete controller of its own.
--
-- Files, and the code that they model:
--   Common              helpers: lists, bits, words of 8 to 64 bits, bytes of an integer in memory
--   Modbus/Exceptions   the exceptions, and methods that change an object and may throw
--   Modbus/Crc          include/Modbus/CRC.h, src/Modbus/CRC.cpp: CRC
--   Modbus/Buffer       include/Modbus/Buffer.h, src/Modbus/Buffer.cpp: Buffer (write, callFunction,
--                       writeCRC)
--   Modbus/Parser       include/Modbus/Parser.h, src/Modbus/Parser.cpp: Parser (parse, read, checkCRC)
--   Modbus/BusList      include/Modbus/BusList.h, src/Modbus/BusList.cpp: BusList (callFunction, parse,
--                       add_response and the error records)
--   Modbus/Floats       the loops of callbacks that read several floats
--   Modbus/Handler      the lambdas that are passed to add_response
--   Ilc/BusList         include/ILC/ILCBusList.h, src/ILC/ILCBusList.cpp: ILCBusList
--   Ilc/SensorMonitor   include/ILC/SensorMonitor.h, src/ILC/SensorMonitor.cpp: SensorMonitor
--   Crio/Fifo           namespace FIFO of include/cRIO/ModbusBuffer.h
--   Crio/ModbusBuffer   include/cRIO/ModbusBuffer.h, src/LSST/cRIO/ModbusBuffer.cpp: ModbusBuffer; its
--                       children Stream (write, read, callFunction, checkCRC) and Responses
--                       (checkCommanded, processResponse) hold definitions too
--   Crio/SimulatedIlc   include/cRIO/SimulatedILC.h: SimulatedILC
--   Crio/TaskQueue      include/cRIO/TaskQueue.h, src/LSST/cRIO/TaskQueue.cpp: TaskQueue
--   Crio/ControllerThread
--                       include/cRIO/ControllerThread.h, src/LSST/cRIO/ControllerThread.cpp: enqueue,
--                       remove, clear, _process_tasks, setInterruptHandler and checkInterrupts
--   Crio/CliApp         include/cRIO/CliApp.h, src/LSST/cRIO/CliApp.cpp: the commands of CliApp
--   Crio/ArrayUtilities include/cRIO/U8ArrayUtilities.h, include/cRIO/U16ArrayUtilities.h: integers in
--                       arrays
--   Crio/FpgaCliApp     include/cRIO/FPGACliApp.h, src/LSST/cRIO/FPGACliApp.cpp: the commands that act
--                       on ILCs, disabled ILCs and getMPU
--   Crio/Fpga           src/LSST/cRIO/FPGA.cpp: FPGA::ilcCommands
--   Crio/Mpu            include/cRIO/MPU.h, src/LSST/cRIO/MPU.cpp: MPU
--   Crio/ThermalIlc     include/cRIO/ThermalILC.h, src/LSST/cRIO/ThermalILC.cpp: ThermalILC
--   Crio/ForceIlc       include/cRIO/ElectromechanicalPneumaticILC.h,
--                       src/LSST/cRIO/ElectromechanicalPneumaticILC.cpp
--   Crio/Thread         include/cRIO/Thread.h, src/LSST/cRIO/Thread.cpp: start, stop and _run, with
--                       ControllerThread::run
--   Crio/IntelHex       include/cRIO/IntelHex.h, src/LSST/cRIO/IntelHex.cpp: getData; its child Lines
--                       has load and _processLine
--   Crio/PrintIlc       include/cRIO/PrintILC.h, src/LSST/cRIO/PrintILC.cpp: _writeHex; its child
--                       Program has programILC and writeApplicationStats
--   Transports          include/Transports/Transport.h, src/Transports/Transport.cpp:
--                       Transport::execute_command, and commands; its children Simulated and Serial have
--                       SimulatedTransport and FPGASerialDevice
--   Pid                 include/PID, src/LSST/PID: PID and LimitedPID
--   Tests               concrete runs
-- The children of a module hold its theorems.
--
-- How it is modelled. Bytes and words are natural numbers, wrapped where the code's types wrap; a
-- signed integer and a float are their bit patterns. The machine is little-endian: htons and its
-- relatives reverse the bytes of memory. A method is a function from the object to a result or an
-- exception with the object behind it, so that what was changed before a throw is seen. A bus list has
-- its own fields beside the state of its subclass; a callback changes that state only. The table of
-- callbacks is filled by constructors and is an argument. A std::map is a function whose missing keys
-- read as `none`.
--
-- Fuel. The loop of ilcCommands that parses a response until it is no WrongResponse has as much fuel as
-- there are commands, and one more, which is enough unless an error callback throws WrongResponse
-- itself (see Crio/Fpga/Retry). The loop over the pages of a firmware has as much fuel as there are
-- bytes, which is enough (see Crio/PrintIlc/Pages). The loop of processResponse has enough with one
-- round more than there are replies (see Crio/ModbusBuffer/Replies), that of getReadData with one more
-- than words are left, that of _process_tasks with one more than there are due tasks (see
-- Crio/ControllerThread/Process), and that of tokenize with one more than the line has characters. The
-- loop of execute_command has enough with as many rounds as the reply has bytes (see
-- Transports/Gather); that of FPGASerialDevice::read depends on the clock, and has the rounds that are
-- given. What a loop does without fuel is `undefined`, or `none` in tokenize, which no theorem has as
-- its result.
--
-- Parameters. push and pop of std::priority_queue have the laws of Crio/TaskQueue, a device on a
-- ModbusBuffer has those of Crio/ModbusBuffer/Laws; tasks, handlers, the clock, the conversions of
-- numbers, stat, std::sort behind getData and the FPGA behind programILC are arguments. So are the
-- FIFOs of the National Instruments library behind a serial device, the device behind a simulated
-- transport, and the arithmetic of double.
--
-- Steps. A thread, its client and the other users of its mutex are a relation between states, of which
-- one step is what happens between two points where the mutex may change hands. A flag says whether
-- tasks may throw: behind such a throw the thread goes on without the mutex, in smaller steps, and an
-- unlock of the mutex that it does not hold may leave the mutex to anyone.
--
-- Not modelled: the FIFO transfers and interrupts of the FPGA, which are virtual functions of the
-- programs; logs and texts; the callbacks of PrintILC; opening and closing of the FPGA by FPGACliApp;
-- Thread::wait_until; settings, and the services around them.
pub mod Common
pub mod Modbus
pub mod Crio
pub mod Ilc
pub mod Transports
pub mod Pid
mod Tests
