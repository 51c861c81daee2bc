-- ===== src/Scenarios.antt =====
-- Concrete runs of the program: the theorems at states and inputs that it meets.
mod Rtc3dRuns
mod MachineRuns
mod SledRuns
mod ProfileRuns
mod ServerRuns
mod TcpRuns
mod ParserRuns
mod ProgramRuns
mod MainRuns
